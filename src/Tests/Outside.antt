-- ===== src/Tests/Outside.antt =====
-- Signed requests, retries, the token cache and the plan editor at concrete inputs.
use Prim.Native.String.{◌++◌ as text_append}
use subscription_be.Prelude.{
  ℕ, zero, suc, ◌+◌, ◌<◌, ◌≡◌, refl, String, true, false, Option, none, some, [], ◌∷◌, arith, inl,
  str_eq, if◌then◌else◌,
}
use subscription_be.Prelude.Int.{ℤ, pos}
use subscription_be.Db.Table
use subscription_be.Db.Action.{ok}
use subscription_be.Db.Schema.{package_type, PackageTier, clinic_addon, user_addon}
use subscription_be.Http.Retry.{
  Answer, returned, failed, RetryOptions, goes_on, with_retry, with_retry_answers,
}
use subscription_be.Http.Signed
use subscription_be.Masters.Parts.{has_key}
use subscription_be.Masters.Plans
use subscription_be.Masters.PlanParts.{upsert_plan_others}

abbrev test_mac : String → String → String
test_mac raw secret = text_append secret raw

abbrev read_thousand : String → Option ℤ
read_thousand t = if str_eq t "1000" then some (pos 1000) else none

abbrev read_json : String → Option ℕ
read_json t = some 5

abbrev test_js : Signed.Runtime ℕ
test_js = record {
  hmac_sha256_hex = test_mac;
  parse_int = read_thousand;
  is_blank = λ t. str_eq t "";
  parse_json = read_json;
}

abbrev signed_request : Signed.Request
signed_request = record {
  signature = some "sha256=secret5";
  timestamp = some "1000";
  body = Signed.buffer "5";
}

webhook_auth-Trusted_example : Signed.Trusted test_js "secret" 1200 signed_request
unfolding Signed.webhook_auth
webhook_auth-Trusted_example =
    Signed.webhook_auth-Trusted test_js "secret" {S = ℕ} 1200 signed_request 0 (some 5) refl

signed_is_let_through_example :
    Signed.webhook_auth test_js "secret" {S = ℕ} 1200
      (record {
        signature = some (Signed.sign_webhook_payload test_js "secret" "5");
        timestamp = some "1000";
        body = Signed.buffer "5";
      })
      0
    ≡ (ok (some 5), 0)
signed_is_let_through_example =
    Signed.signed_is_let_through test_js "secret" {S = ℕ} 1200 "1000" "5" (pos 1000) 5 0 refl refl
      (ground arith) refl refl

abbrev patient : RetryOptions ℕ
patient = record {
  max_retries = 3;
  base_delay_ms = 1000;
  max_delay_ms = 8000;
  should_retry = λ e. true;
}

-- The first attempt fails, the second one returns.
abbrev flaky : ℕ → Answer String ℕ
flaky zero = failed 0
flaky (suc zero) = failed 503
flaky (suc (suc n)) = returned "done"

first_goes_on : (i : ℕ) → i < 1 → goes_on patient (flaky (1 + i)) ≡ true
first_goes_on zero lt = refl
first_goes_on (suc i) lt = ground arith

with_retry_answers_example : with_retry patient flaky 0 ≡ (returned "done", 1000 ∷ [])
with_retry_answers_example =
    with_retry_answers patient flaky 0 1 (ground arith) first_goes_on (inl refl)

abbrev test_plan : Plans.PlanRow
test_plan = record {
  id = 1;
  sku_name = "Basic";
  sku_code = "BASIC";
  sku_type = package_type;
  package_tier = some PackageTier.basic;
  rank = pos 1;
  billing_duration_days = 30;
  coin_cost = 3000;
  is_active = true;
  deleted = false;
}

abbrev test_addon : Plans.AddonRow
test_addon = record {
  id = 1;
  sku_id = 1;
  resource_type = clinic_addon;
  display_name = "Clinics";
  quota_value = 5;
  is_unlimited = false;
  description = none;
  deleted = false;
}

abbrev plan_store : Plans.PlanStore
plan_store = record {
  plans = record { rows = test_plan ∷ []; next_id = 2 };
  benefits = record { rows = []; next_id = 1 };
  features = record { rows = []; next_id = 1 };
  addons = record { rows = test_addon ∷ record test_addon { id = 2 } ∷ []; next_id = 3 };
}

-- An edit that adds one add-on and removes another
abbrev test_edit : Plans.PlanBody
test_edit = record {
  id = some 1;
  form = record {
    sku_name = "Basic";
    sku_code = "BASIC";
    sku_type = package_type;
    package_tier = none;
    rank = pos 1;
    billing_duration_days = 30;
    coin_cost = 3500;
    is_active = true;
  };
  removed = some (record { benefits = []; features = []; addons = 2 ∷ [] });
  benefits = [];
  features = [];
  addons =
      (
        none,
        record {
          resource_type = user_addon;
          display_name = "Users";
          quota_value = 3;
          description = none;
        },
      )
      ∷ [];
}

edit-writes :
    Table.find (has_key Plans.addon_part 3) (Plans.upsert_plan test_edit plan_store).1.addons
    ≡ some (record test_addon {
      id = 3;
      resource_type = user_addon;
      display_name = "Users";
      quota_value = 3;
    })
unfolding Plans.upsert_plan
edit-writes = refl

upsert_plan_others_example :
    Table.find (has_key Plans.addon_part 1) (Plans.upsert_plan test_edit plan_store).1.addons
    ≡ Table.find (has_key Plans.addon_part 1) plan_store.addons
upsert_plan_others_example = upsert_plan_others 1 test_edit plan_store (ground arith) refl refl
