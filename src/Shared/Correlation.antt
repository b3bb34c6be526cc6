-- ===== src/Shared/Correlation.antt =====
-- The trace parent header: shared/correlation/traceparent.go. `new_id` is what id.New makes: 32
-- hexadecimal digits.
pub mod Http
use Prim.Native.Char.{Char, code}
use Prim.Native.String.{len, char_at}
use text.Mathlib.TextLemmas.{nil-append, cons-append, append_assoc}
use Prim.Native.String.{[] as empty, ◌∷◌ as cons}
use go_ddd_template.Base.Split.{free_of, split_on, split_on-concat}
use go_ddd_template.Base.{
  ℕ, zero, suc, ◌≡◌, ◌≢◌, ◌⊎◌, is_empty, refl, ap, ◌∙◌, String, Bool, true, false, not, ◌&&◌, ◌||◌,
  leb, ◌==◌, Option, none, some, List, [], ◌∷◌, str_eq, concat, arith, if◌then◌else◌, Bool-cases,
  inl, inr,
}

unfoldable pub is_hex_digit : Char → Bool
is_hex_digit c =
    (leb 48 (code c) && leb (code c) 57)
    || (leb 97 (code c) && leb (code c) 102)
    || (leb 65 (code c) && leb (code c) 70)

unfoldable pub is_hex : String → Bool
is_hex empty = true
is_hex (cons c s) = is_hex_digit c && is_hex s

-- s[:n] of an ASCII text.
unfoldable pub prefix : ℕ → String → String
prefix zero s = empty
prefix (suc n) empty = empty
prefix (suc n) (cons c s) = cons c (prefix n s)

-- strings.Split(s, "-")
unfoldable pub split_dash : String → List String
unfolding split_on
split_dash s = split_on 45 s

abbrev pub zero_trace_id : String
zero_trace_id = "00000000000000000000000000000000"

unfoldable pub traceparent : String → String → Option String
traceparent new_id trace_id =
    if not (len trace_id == 32) || not (is_hex trace_id)
    then none
    else some (concat "00-" (concat trace_id (concat "-" (concat (prefix 16 new_id) "-01"))))

abbrev accepted : String → Option String
accepted trace_id =
    if not (len trace_id == 32) || str_eq trace_id zero_trace_id || not (is_hex trace_id)
    then none
    else some trace_id

abbrev second_of_four : List String → Option String
second_of_four (version ∷ trace_id ∷ span ∷ flags ∷ []) = accepted trace_id
second_of_four parts = none

unfoldable pub trace_id_from_traceparent : String → Option String
trace_id_from_traceparent tp = second_of_four (split_dash tp)

hex_no_dash : (c : Char) → is_hex_digit c ≡ true → (code c == 45) ≡ false
unfolding is_hex_digit
hex_no_dash c h = ground arith

abbrev dash : Char
dash = char_at "-" 0

dash-concat : (t : String) → concat "-" t ≡ cons dash t
dash-concat t = cons-append dash empty t ∙ ap (cons dash) (nil-append t)

is_hex-cons :
    (c : Char) (s : String) → is_hex (cons c s) ≡ true → (is_hex_digit c ≡ true) × (is_hex s ≡ true)
unfolding is_hex
is_hex-cons c s h = ground arith

is_hex-free_of : (s : String) → is_hex s ≡ true → free_of 45 s ≡ true
unfolding is_hex
is_hex-free_of empty h = refl
is_hex-free_of (cons c s) h = ground (arith, hex_no_dash c, is_hex-free_of s)

-- A text without a dash is the first part.
split_dash-concat :
    (s t : String) → is_hex s ≡ true → split_dash (concat s (concat "-" t)) ≡ s ∷ split_dash t
unfolding split_dash
split_dash-concat s t h =
    ap (λ u. split_dash (concat s u)) (dash-concat t)
    ∙ split_on-concat 45 s dash t (is_hex-free_of s h) refl

prefix-is_hex : (n : ℕ) (s : String) → is_hex s ≡ true → is_hex (prefix n s) ≡ true
unfolding prefix is_hex
prefix-is_hex zero s h = refl
prefix-is_hex (suc n) empty h = refl
prefix-is_hex (suc n) (cons c s) h =
    ground (arith, is_hex-cons c s h, prefix-is_hex n s (is_hex-cons c s h).1)

header_parts :
    (trace_id span : String)
    → is_hex trace_id ≡ true
    → is_hex span ≡ true
    → split_dash (concat "00-" (concat trace_id (concat "-" (concat span "-01"))))
      ≡ "00" ∷ trace_id ∷ span ∷ "01" ∷ []
unfolding split_dash is_hex is_hex_digit
header_parts trace_id span h h' =
    ap split_dash (append_assoc "00" "-" (concat trace_id (concat "-" (concat span "-01"))))
    ∙ split_dash-concat "00" (concat trace_id (concat "-" (concat span "-01"))) refl
    ∙ ap (λ parts. "00" ∷ parts)
        (split_dash-concat trace_id (concat span "-01") h
          ∙ ap (λ parts. trace_id ∷ parts) (split_dash-concat span "01" h'))

-- A trace identifier that is not all zeros and that Traceparent accepts is read back from the
-- header that it makes, whatever hexadecimal digits id.New gives for the span.
pub trace_id_from_traceparent-traceparent :
    (new_id trace_id tp : String)
    → is_hex new_id ≡ true
    → str_eq trace_id zero_trace_id ≡ false
    → traceparent new_id trace_id ≡ some tp
    → trace_id_from_traceparent tp ≡ some trace_id
unfolding traceparent trace_id_from_traceparent
trace_id_from_traceparent-traceparent new_id trace_id tp h z e =
    elim (Bool-cases (not (len trace_id == 32) || not (is_hex trace_id))) [
      | inl bad ↦ absurd (ground (arith, bad, e))
      | inr good ↦
          let hex : is_hex trace_id ≡ true = ground (arith, good) in
          let parts = header_parts trace_id (prefix 16 new_id) hex (prefix-is_hex 16 new_id h) in
          ground (arith, good, e, z, hex, parts)
    ]

-- The header starts with the version.
header_nonempty :
    (new_id trace_id tp : String) → traceparent new_id trace_id ≡ some tp → is_empty tp ≡ false
unfolding traceparent
header_nonempty new_id trace_id tp e =
    let rest = concat trace_id (concat "-" (concat (prefix 16 new_id) "-01")) in
    ground (arith, e, ap is_empty (cons-append (char_at "00-" 0) "0-" rest))

-- The header of any identifier is read back as it, or refused.
pub traceparent_read :
    (new_id trace_id tp : String)
    → is_hex new_id ≡ true
    → traceparent new_id trace_id ≡ some tp
    → (is_empty tp ≡ false)
      × ((trace_id_from_traceparent tp ≡ some trace_id) ⊎ (trace_id_from_traceparent tp ≡ none))
unfolding traceparent trace_id_from_traceparent
traceparent_read new_id trace_id tp h e =
    elim (Bool-cases (not (len trace_id == 32) || not (is_hex trace_id))) [
      | inl bad ↦ absurd (ground (arith, bad, e))
      | inr good ↦
          let hex : is_hex trace_id ≡ true = ground (arith, good) in
          let parts = header_parts trace_id (prefix 16 new_id) hex (prefix-is_hex 16 new_id h) in
          (
            header_nonempty new_id trace_id tp e,
            elim (Bool-cases (str_eq trace_id zero_trace_id)) [
              | inl z ↦ inr (ground (arith, good, e, z, parts))
              | inr z ↦ inl (ground (arith, good, e, z, hex, parts))
            ],
          )
    ]

accepted_facts :
    (t trace_id : String)
    → accepted t ≡ some trace_id
    → ((len trace_id == 32) ≡ true)
      × (str_eq trace_id zero_trace_id ≡ false)
      × (is_hex trace_id ≡ true)
accepted_facts t trace_id h = ground (arith, h)

second_facts :
    (parts : List String) (trace_id : String)
    → second_of_four parts ≡ some trace_id
    → ((len trace_id == 32) ≡ true)
      × (str_eq trace_id zero_trace_id ≡ false)
      × (is_hex trace_id ≡ true)
second_facts [] trace_id h = absurd cc
second_facts (a ∷ []) trace_id h = absurd cc
second_facts (a ∷ b ∷ []) trace_id h = absurd cc
second_facts (a ∷ b ∷ c ∷ []) trace_id h = absurd cc
second_facts (a ∷ b ∷ c ∷ d ∷ []) trace_id h = accepted_facts b trace_id h
second_facts (a ∷ b ∷ c ∷ d ∷ e ∷ parts) trace_id h = absurd cc

-- What is read from a header, whatever its text, is an identifier that Traceparent accepts, and not
-- all zeros.
pub traceparent-trace_id_from_traceparent :
    (new_id tp trace_id : String)
    → trace_id_from_traceparent tp ≡ some trace_id
    → (traceparent new_id trace_id ≢ none) × (str_eq trace_id zero_trace_id ≡ false)
unfolding traceparent trace_id_from_traceparent
traceparent-trace_id_from_traceparent new_id tp trace_id h =
    let (size, nonzero, hex) = second_facts (split_dash tp) trace_id h in
    ((λ e. ground (arith, size, hex, e)), nonzero)
