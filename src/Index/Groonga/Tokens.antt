-- ===== src/Index/Groonga/Tokens.antt =====
-- How the commands of native/index/groonga_index.cpp are read again: a reader of arguments that are
-- in quotes, by the rules that are named at quoteToken.
use mathlib.Core.List.{append_assoc}
use rats_search_tui.Base.{
  ℕ, zero, suc, ◌==◌, ◌≡◌, refl, ap, ◌∙◌, Bool, false, not, ◌&&◌, List, [], ◌∷◌, ◌++◌, Option, none,
  some, Text, codes, any, null, length, before_after, All, All-append, if_intro, arith,
  if◌then◌else◌,
}
use rats_search_tui.Index.{SearchQuery}
use rats_search_tui.Index.Groonga.Query.{
  escaped, escape, quote_token, arg, render, arg_if, match_args, names_args, files_args,
  parents_args, arg_of, part_if, part_of, page_args, key_filter, build_filter_expr, sort_keys,
  is_hash_like, join, from_torrents, from_files,
}

-- The byte that a letter behind a backslash stands for.
abbrev unescaped : ℕ → ℕ
unescaped d =
    if d == b'n' then b'\n' else if d == b'r' then b'\r' else if d == b't' then b'\t' else d

abbrev prepend : ℕ → Option (Text × Text) → Option (Text × Text)
prepend c none = none
prepend c (some (s, rest)) = some (c ∷ s, rest)

-- The text up to the closing quote, and what follows it. The flag says that a backslash stood before.
unfoldable pub read_body : Bool → Text → Option (Text × Text)
read_body after_backslash [] = none
read_body after_backslash (c ∷ s) =
    let more = read_body (not after_backslash && c == b'\\') s in
    if after_backslash
    then prepend (unescaped c) more
    else if c == b'"'
    then some ([], s)
    else if c == b'\\'
    then more
    else prepend c more

unfoldable pub unquote : Text → Option (Text × Text)
unquote [] = none
unquote (c ∷ s) = if c == b'"' then read_body false s else none

read_body-escaped :
    (c : ℕ) (t : Text) → read_body false (escaped c ++ t) ≡ prepend c (read_body false t)
unfolding read_body escaped
read_body-escaped c t = ground arith

read_body-escape : (s rest : Text) → read_body false (escape s ++ b'"' ∷ rest) ≡ some (s, rest)
unfolding escape
read_body-escape [] rest = unfold read_body in refl
read_body-escape (c ∷ s) rest =
    ap (read_body false) (append_assoc (escaped c) (escape s) (b'"' ∷ rest))
    ∙ read_body-escaped c (escape s ++ b'"' ∷ rest)
    ∙ ap (prepend c) (read_body-escape s rest)

-- A token is read back whole, whatever bytes it has, and the reader stops behind it.
pub unquote-quote_token : (s rest : Text) → unquote (quote_token s ++ rest) ≡ some (s, rest)
unfolding unquote quote_token
unquote-quote_token s rest =
    ap (read_body false) (append_assoc (escape s) (b'"' ∷ []) rest) ∙ read_body-escape s rest

-- What follows a text that begins with the given bytes.
abbrev after_prefix : Text → Text → Option Text
after_prefix [] s = some s
after_prefix (a ∷ p) [] = none
after_prefix (a ∷ p) (c ∷ s) = if a == c then after_prefix p s else none

after_prefix-append : (p s : Text) → after_prefix p (p ++ s) ≡ some s
after_prefix-append [] s = refl
after_prefix-append (a ∷ p) s = ground (arith, after_prefix-append p s)

abbrev with_flag : Text → Option (Text × Text) → Option ((Text × Text) × Text)
with_flag flag none = none
with_flag flag (some (value, rest)) = some ((flag, value), rest)

abbrev value_after : Text × Option Text → Option ((Text × Text) × Text)
value_after (flag, none) = none
value_after (flag, some s) = with_flag flag (unquote s)

abbrev arg_after : Option Text → Option ((Text × Text) × Text)
arg_after none = none
arg_after (some r) = value_after (before_after b' ' r)

-- An argument: two dashes, a flag up to a space, and a token.
unfoldable pub next_arg : Text → Option ((Text × Text) × Text)
next_arg s = arg_after (after_prefix (codes " --") s)

abbrev and_then :
    (Text → Option (List (Text × Text)))
    → Option ((Text × Text) × Text)
    → Option (List (Text × Text))
and_then more none = none
and_then more (some (a, rest)) = elim (more rest) [ none ↦ none | some args ↦ some (a ∷ args) ]

-- That many arguments, and nothing behind them.
unfoldable pub read_args : ℕ → Text → Option (List (Text × Text))
read_args zero s = if null s then some [] else none
read_args (suc n) s = and_then (read_args n) (next_arg s)

abbrev args_after : ℕ → Option Text → Option (List (Text × Text))
args_after n none = none
args_after n (some r) = read_args n r

unfoldable pub read_command : Text → ℕ → Text → Option (List (Text × Text))
read_command command n s = args_after n (after_prefix command s)

-- A flag has no space in it.
abbrev pub IsPlain : Text × Text → Type 0
IsPlain (flag, value) = any (λ c. c == b' ') flag ≡ false

before_after_flag :
    (flag s : Text)
    → any (λ c. c == b' ') flag ≡ false
    → before_after b' ' (flag ++ b' ' ∷ s) ≡ (flag, some s)
before_after_flag [] s h = refl
before_after_flag (c ∷ flag) s h = ground (arith, before_after_flag flag s)

next_arg-arg :
    (flag value rest : Text)
    → IsPlain (flag, value)
    → next_arg (arg flag value ++ rest) ≡ some ((flag, value), rest)
unfolding next_arg arg
next_arg-arg flag value rest h =
    ap (λ r. value_after (before_after b' ' r)) (append_assoc flag (b' ' ∷ quote_token value) rest)
    ∙ ap value_after (before_after_flag flag (quote_token value ++ rest) h)
    ∙ ap (with_flag flag) (unquote-quote_token value rest)

read_args-render :
    (args : List (Text × Text))
    → All IsPlain args
    → read_args (length args) (render args) ≡ some args
unfolding read_args render
read_args-render [] h = refl
read_args-render ((flag, value) ∷ args) h =
    rw (next_arg-arg flag value (render args) h.0, read_args-render args h.1) refl

read_command-render :
    (command : Text) (args : List (Text × Text))
    → All IsPlain args
    → read_command command (length args) (command ++ render args) ≡ some args
unfolding read_command
read_command-render command args h =
    ap (args_after (length args)) (after_prefix-append command (render args))
    ∙ read_args-render args h

arg_if-IsPlain :
    (b : Bool) (flag value : Text) → IsPlain (flag, value) → All IsPlain (arg_if b flag value)
arg_if-IsPlain b flag value h = if_intro (All IsPlain) b (h, tt) tt

match_args-IsPlain : (column : Text) (q : SearchQuery) → All IsPlain (match_args column q)
unfolding match_args
match_args-IsPlain column q = (
  refl,
  (refl, (refl, arg_if-IsPlain q.strict (codes "match_escalation_threshold") (codes "-1") refl)),
)

names_args-IsPlain : (q : SearchQuery) → All IsPlain (names_args q)
unfolding names_args
names_args-IsPlain q =
    let parts =
      part_if (is_hash_like q.text) (key_filter q.text) ++ part_of (build_filter_expr q) in
    let filter = join (codes " && ") parts in
    let keys = sort_keys (is_hash_like q.text) q in
    let match = if is_hash_like q.text then [] else match_args (codes "name") q in
    let filter_arg = arg_of (codes "filter") filter in
    let keys_arg = arg_of (codes "sort_keys") keys in
    (
      refl,
      All-append IsPlain (filter_arg ++ match ++ keys_arg) (page_args q.offset q.limit)
          (All-append IsPlain (filter_arg ++ match) keys_arg
            (All-append IsPlain filter_arg match
              (arg_if-IsPlain (not (null filter)) (codes "filter") filter refl)
              (if_intro (All IsPlain) (is_hash_like q.text) tt
                (match_args-IsPlain (codes "name") q)))
            (arg_if-IsPlain (not (null keys)) (codes "sort_keys") keys refl))
          (refl, (refl, tt)),
    )

files_args-IsPlain : (q : SearchQuery) → All IsPlain (files_args q)
unfolding files_args
files_args-IsPlain q = (
  refl,
  All-append IsPlain (match_args (codes "path") q) _ (match_args-IsPlain (codes "path") q)
      (refl, (refl, tt)),
)

parents_args-IsPlain : (hashes : List Text) (q : SearchQuery) → All IsPlain (parents_args hashes q)
unfolding parents_args
parents_args-IsPlain hashes q = (refl, (refl, (refl, tt)))

-- Whatever a query asks for, the commands of the two searches are read back to the arguments that the
-- code put in, each value whole: no text of the query ends a token or adds an argument.
pub searches_read :
    (hashes : List Text) (q : SearchQuery)
    → (read_command
          (codes "select --table Torrents")
          (length (names_args q))
          (from_torrents (names_args q))
        ≡ some (names_args q))
      × (read_command
            (codes "select --table Files")
            (length (files_args q))
            (from_files (files_args q))
          ≡ some (files_args q))
      × (read_command
            (codes "select --table Torrents")
            (length (parents_args hashes q))
            (from_torrents (parents_args hashes q))
          ≡ some (parents_args hashes q))
searches_read hashes q = (
  read_command-render (codes "select --table Torrents") (names_args q) (names_args-IsPlain q),
  read_command-render (codes "select --table Files") (files_args q) (files_args-IsPlain q),
  read_command-render (codes "select --table Torrents") (parents_args hashes q)
      (parents_args-IsPlain hashes q),
)
