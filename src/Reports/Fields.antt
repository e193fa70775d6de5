-- ===== src/Reports/Fields.antt =====
-- How a field of a report's file reads back: in quotes, or as one of the words of the headers.
use Prim.Native.Char.{Char, code}
use Prim.Native.String.append
use Prim.Native.String.{[], ◌∷◌, ◌++◌ as text_append}
use text.Mathlib.TextLemmas.{append_assoc}
use subscription_be.Prelude.{
  String, Bool, true, false, ◌&&◌, List, [], ◌∷◌, ◌==◌, ◌≡◌, refl, ap, ◌∙◌, arith, Bool-cases, inl,
  inr,
}
use subscription_be.Reports.{is_quote, escape, quoted_field}
use subscription_be.Reports.Csv.{
  start, quoted, pending, bare, Kind, quote, comma, newline, other, kind, put, read,
}

-- A text before what was read of the rest
abbrev put_all : String → List (List String) → List (List String)
put_all [] t = t
put_all (c ∷ v) t = put c (put_all v t)

put_all_blank :
    (v : String) (row : List String) (rows : List (List String))
    → put_all v (("" ∷ row) ∷ rows) ≡ (v ∷ row) ∷ rows
put_all_blank [] row rows = refl
put_all_blank (c ∷ v) row rows = rw (put_all_blank v row rows) refl

read_doubled :
    (c : Char) (s : String) → is_quote c ≡ true → read quoted (c ∷ c ∷ s) ≡ put c (read quoted s)
read_doubled c s is = rw (read, is) (rw is refl)

read_inside :
    (c : Char) (s : String) → is_quote c ≡ false → read quoted (c ∷ s) ≡ put c (read quoted s)
read_inside c s plain =
    rw (read, plain)
      (elim (Bool-cases (code c == 44)) [
        | inl is ↦ rw is refl
        | inr not_comma ↦ rw not_comma (elim (Bool-cases (code c == 10)) [
          | inl is ↦ rw is refl
          | inr not_newline ↦ rw not_newline refl
        ])
      ])

escape_quote : (c : Char) (v : String) → is_quote c ≡ true → escape (c ∷ v) ≡ c ∷ c ∷ escape v
escape_quote c v is = rw is refl

escape_other : (c : Char) (v : String) → is_quote c ≡ false → escape (c ∷ v) ≡ c ∷ escape v
escape_other c v plain = rw plain refl

-- What is escaped in quotes reads as it was.
read-escape : (v s : String) → read quoted (text_append (escape v) s) ≡ put_all v (read quoted s)
read-escape [] s = ap (read quoted) (append.nil s)
read-escape (c ∷ v) s = elim (Bool-cases (is_quote c)) [
  | inl is ↦
      ap (λ (e : String). read quoted (text_append e s)) (escape_quote c v is)
      ∙ ap (read quoted) (append.cons c (c ∷ escape v) s)
      ∙ ap (λ (e : String). read quoted (c ∷ e)) (append.cons c (escape v) s)
      ∙ read_doubled c (text_append (escape v) s) is
      ∙ ap (put c) (read-escape v s)
  | inr plain ↦
      ap (λ (e : String). read quoted (text_append e s)) (escape_other c v plain)
      ∙ ap (read quoted) (append.cons c (escape v) s)
      ∙ read_inside c (text_append (escape v) s) plain
      ∙ ap (put c) (read-escape v s)
]

-- A text that a field is written as, before a comma, a line end or nothing
abbrev pub Renders : (text : String) (value : String) → Type 0
Renders text value =
    (tail : String) (row : List String) (rows : List (List String))
    → read pending tail ≡ ("" ∷ row) ∷ rows
    → read bare tail ≡ ("" ∷ row) ∷ rows
    → read start (text_append text tail) ≡ (value ∷ row) ∷ rows

abbrev quote_mark : Char
quote_mark = "\""

opening : (t : String) → text_append "\"" t ≡ quote_mark ∷ t
opening t = append.cons quote_mark "" t ∙ ap (λ (e : String). quote_mark ∷ e) (append.nil t)

pub comma_then : (t : String) → text_append "," t ≡ "," ∷ t
comma_then t = append.cons "," "" t ∙ ap (λ (e : String). "," ∷ e) (append.nil t)

pub newline_then : (t : String) → text_append "\n" t ≡ "\n" ∷ t
newline_then t = append.cons "\n" "" t ∙ ap (λ (e : String). "\n" ∷ e) (append.nil t)

pub quoted_field-Renders : (v : String) → Renders (quoted_field v) v
quoted_field-Renders v tail row rows closed ended =
    ap (read start) (append_assoc "\"" (text_append (escape v) "\"") tail)
    ∙ ap (λ (e : String). read start (text_append "\"" e)) (append_assoc (escape v) "\"" tail)
    ∙ ap (read start) (opening (text_append (escape v) (text_append "\"" tail)))
    ∙ read-escape v (text_append "\"" tail)
    ∙ ap (λ (e : String). put_all v (read quoted e)) (opening tail)
    ∙ ap (put_all v) closed
    ∙ put_all_blank v row rows

-- A text without quotes, commas and line ends
abbrev is_other : Kind → Bool
is_other other = true
is_other _ = false

abbrev is_plain : String → Bool
is_plain [] = true
is_plain (c ∷ s) = is_other (kind c) && is_plain s

abbrev pub is_word : String → Bool
is_word [] = false
is_word (c ∷ s) = is_plain (c ∷ s)

other_kind : (k : Kind) → is_other k ≡ true → k ≡ other
other_kind quote is = ground arith
other_kind comma is = ground arith
other_kind newline is = ground arith
other_kind other is = refl

pub both : (a b : Bool) → (a && b) ≡ true → (a ≡ true) × (b ≡ true)
both true b h = (refl, h)
both false b h = ground arith

read_bare_other : (c : Char) (s : String) → kind c ≡ other → read bare (c ∷ s) ≡ put c (read bare s)
read_bare_other c s is = rw (read, is) refl

read_start_other :
    (c : Char) (s : String) → kind c ≡ other → read start (c ∷ s) ≡ put c (read bare s)
read_start_other c s is = rw (read, is) refl

read-plain :
    (v tail : String)
    → is_plain v ≡ true
    → read bare (text_append v tail) ≡ put_all v (read bare tail)
read-plain [] tail plain = ap (read bare) (append.nil tail)
read-plain (c ∷ v) tail plain =
    let (here, later) = both (is_other (kind c)) (is_plain v) plain in
    ap (read bare) (append.cons c v tail)
    ∙ read_bare_other c (text_append v tail) (other_kind (kind c) here)
    ∙ ap (put c) (read-plain v tail later)

pub word-Renders : (v : String) → is_word v ≡ true → Renders v v
word-Renders [] word = ground arith
word-Renders (c ∷ v) word = λ tail row rows closed ended.
    let (here, later) = both (is_other (kind c)) (is_plain v) word in
    ap (read start) (append.cons c v tail)
    ∙ read_start_other c (text_append v tail) (other_kind (kind c) here)
    ∙ ap (put c) (read-plain v tail later ∙ ap (put_all v) ended)
    ∙ put_all_blank (c ∷ v) row rows
