-- ===== src/Platform/Disk.antt =====
-- The disk as the program writes its JSON files (native/engine/session_store.cpp and
-- native/platform/config.cpp): to a temporary file that is then renamed. It is a function from paths to
-- what the files hold.
use rats_search_tui.Base.{
  ◌≡◌, refl, ap, Bool, true, false, ◌++◌, Option, none, some, Text, codes, eq_text, eq_text→eq,
  eq_text_refl, length, length-append, Bool-cases, inl, inr, arith, if◌then◌else◌,
}

abbrev pub Disk : Type 0 → Type 0
Disk C = Text → Option C

abbrev pub put_file : {C : Type 0} → Text → Option C → Disk C → Disk C
put_file path content disk = λ q. if eq_text q path then content else disk q

-- How writing a file ends: it cannot be opened; what was written of it is left; what was still
-- buffered is lost as the stream closes, which nobody asks for, so that a part takes the file's place;
-- it cannot be renamed; or it is in its place.
pub data Outcome (C : Type 0) : Type 0 where
  not_opened : Outcome C
  broken_off : C → Outcome C
  cut_short : C → Outcome C
  not_renamed : Outcome C
  in_place : Outcome C

abbrev pub temporary : Text → Text
temporary path = path ++ codes ".tmp"

-- The end of a save, from the opening of the temporary file on.
unfoldable pub write_file : {C : Type 0} → Outcome C → Text → C → Disk C → Bool × Disk C
write_file not_opened path text disk = (false, disk)
write_file (broken_off part) path text disk = (false, put_file (temporary path) (some part) disk)
write_file (cut_short part) path text disk =
    (true, put_file path (some part) (put_file (temporary path) none disk))
write_file not_renamed path text disk = (false, put_file (temporary path) (some text) disk)
write_file in_place path text disk =
    (true, put_file path (some text) (put_file (temporary path) none disk))

pub path-ne-temporary : (path : Text) → eq_text path (temporary path) ≡ false
path-ne-temporary path = elim (Bool-cases (eq_text path (temporary path))) [
  | inl e ↦ absurd (
      omega
        (arith, ap length (eq_text→eq path (temporary path) e), length-append path (codes ".tmp")))
  | inr e ↦ e
]

-- A write that fails changes the temporary file only.
pub write_file_keeps :
    {C : Type 0} (outcome : Outcome C) (path : Text) (text : C) (q : Text) (disk : Disk C)
    → (write_file outcome path text disk).0 ≡ false
    → eq_text q (temporary path) ≡ false
    → (write_file outcome path text disk).1 q ≡ disk q
unfolding write_file
write_file_keeps not_opened path text q disk e h = refl
write_file_keeps (broken_off part) path text q disk e h = rw h refl
write_file_keeps (cut_short part) path text q disk e h = cc
write_file_keeps not_renamed path text q disk e h = rw h refl
write_file_keeps in_place path text q disk e h = cc

-- What was written and is in its place is read back, and the write says that it succeeded.
pub in_place_reads :
    {C : Type 0} (path : Text) (text : C) (disk : Disk C)
    → ((write_file in_place path text disk).0 ≡ true)
      × ((write_file in_place path text disk).1 path ≡ some text)
unfolding write_file
in_place_reads path text disk = (refl, rw (eq_text_refl path) refl)
