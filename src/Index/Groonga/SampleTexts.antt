-- ===== src/Index/Groonga/SampleTexts.antt =====
-- Texts for the sample JSON values, for the tests: the parts of a value stand before what joins them.
use mathlib.Core.List.{append-nil, append_assoc}
use rats_search_tui.Base.{
  ℕ, zero, suc, ◌==◌, pos, negsuc, ◌≡◌, refl, ap, sym, ◌∙◌, true, false, List, [], ◌∷◌, ◌++◌,
  Option, none, some, Text, if◌then◌else◌,
}
use rats_search_tui.Domain.Json.Sample.{
  Value, nothing, text, number, flag, fields, entry, items, item,
}

-- A text that is ended by zero.
abbrev pub ended : Text → Text
ended [] = 0 ∷ []
ended (c ∷ s) = suc c ∷ ended s

abbrev pub written : Value → Text
written nothing = 0 ∷ []
written fields = 1 ∷ []
written items = 2 ∷ []
written (flag true) = 3 ∷ []
written (flag false) = 4 ∷ []
written (number (pos n)) = 5 ∷ n ∷ []
written (number (negsuc n)) = 6 ∷ n ∷ []
written (text s) = 7 ∷ ended s
written (entry o k v) = written o ++ written v ++ 8 ∷ ended k
written (item a v) = written a ++ written v ++ 9 ∷ []

-- What is read next: a value, a number, or the rest of a text or of a key.
pub data Mode : Type 0 where
  value : Mode
  positive : Mode
  negative : Mode
  in_text : Text → Mode
  in_key : Text → Mode

abbrev pub joined : List Value → Option (Mode × List Value)
joined (v ∷ a ∷ stack) = some (value, item a v ∷ stack)
joined _ = none

abbrev pub with_key : Text → List Value → Option (Mode × List Value)
with_key k (v ∷ o ∷ stack) = some (value, entry o k v ∷ stack)
with_key k _ = none

abbrev pub begin : List Value → ℕ → Option (Mode × List Value)
begin stack c =
    if c == 0
    then some (value, nothing ∷ stack)
    else if c == 1
    then some (value, fields ∷ stack)
    else if c == 2
    then some (value, items ∷ stack)
    else if c == 3
    then some (value, flag true ∷ stack)
    else if c == 4
    then some (value, flag false ∷ stack)
    else if c == 5
    then some (positive, stack)
    else if c == 6
    then some (negative, stack)
    else if c == 7
    then some (in_text [], stack)
    else if c == 8
    then some (in_key [], stack)
    else joined stack

abbrev pub step : Mode → List Value → ℕ → Option (Mode × List Value)
step value stack c = begin stack c
step positive stack c = some (value, number (pos c) ∷ stack)
step negative stack c = some (value, number (negsuc c) ∷ stack)
step (in_text t) stack zero = some (value, text t ∷ stack)
step (in_text t) stack (suc c) = some (in_text (t ++ c ∷ []), stack)
step (in_key k) stack zero = with_key k stack
step (in_key k) stack (suc c) = some (in_key (k ++ c ∷ []), stack)

abbrev pub alone : Mode → List Value → Option Value
alone value (v ∷ []) = some v
alone _ _ = none

abbrev pub read : Mode → List Value → Text → Option Value
read mode stack [] = alone mode stack
read mode stack (c ∷ s) = elim (step mode stack c) [
  | none ↦ none
  | some (mode', stack') ↦ read mode' stack' s
]

abbrev pub encode : Value → Text
encode v = 1 ∷ written v

abbrev pub decode : Text → Option Value
decode [] = none
decode (c ∷ s) = read value [] s

read-text :
    (t s rest : Text) (stack : List Value)
    → read (in_text t) stack (ended s ++ rest) ≡ read value (text (t ++ s) ∷ stack) rest
read-text t [] rest stack = rw append-nil refl
read-text t (c ∷ s) rest stack = read-text (t ++ c ∷ []) s rest stack ∙ rw append_assoc refl

read-key :
    (k s rest : Text) (v o : Value) (stack : List Value)
    → read (in_key k) (v ∷ o ∷ stack) (ended s ++ rest)
      ≡ read value (entry o (k ++ s) v ∷ stack) rest
read-key k [] rest v o stack = rw append-nil refl
read-key k (c ∷ s) rest v o stack = read-key (k ++ c ∷ []) s rest v o stack ∙ rw append_assoc refl

read-written :
    (v : Value) (rest : Text) (stack : List Value)
    → read value stack (written v ++ rest) ≡ read value (v ∷ stack) rest
read-written nothing rest stack = refl
read-written fields rest stack = refl
read-written items rest stack = refl
read-written (flag true) rest stack = refl
read-written (flag false) rest stack = refl
read-written (number (pos n)) rest stack = refl
read-written (number (negsuc n)) rest stack = refl
read-written (text s) rest stack = read-text [] s rest stack
read-written (entry o k v) rest stack =
    ap (read value stack) (
      append_assoc (written o ++ written v) (8 ∷ ended k) rest
      ∙ append_assoc (written o) (written v) (8 ∷ (ended k ++ rest)))
    ∙ read-written o _ stack
    ∙ read-written v _ (o ∷ stack)
    ∙ read-key [] k rest v o stack
read-written (item a v) rest stack =
    ap (read value stack) (
      append_assoc (written a ++ written v) (9 ∷ []) rest
      ∙ append_assoc (written a) (written v) (9 ∷ rest))
    ∙ read-written a _ stack
    ∙ read-written v _ (a ∷ stack)

pub decode-encode : (v : Value) → decode (encode v) ≡ some v
decode-encode v = ap (read value []) (sym (append-nil (written v))) ∙ read-written v [] []
