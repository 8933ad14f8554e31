-- ===== src/Storage.antt =====
-- How the stores of the program keep themselves on disk: encoding/json and the file system, which
-- are parameters. A store is written whole after each change, and read back when it is opened.
use korik.Prelude.{Option, Str, arith, none, some, ◌≡◌}

-- json.Marshal and json.Unmarshal at one type; `none` is an error of the decoder.
pub record Codec (A : Type 0) : Type 0 where
  pub encode : A → Str
  pub decode : Str → Option A

-- What the system does with one attempt to write: where the write itself fails, it may leave
-- anything in the file.
pub data Outcome : Type 0 where
  written : Outcome
  no_directory : Outcome
  not_encoded : Outcome
  not_written : Option Str → Outcome

pub data SaveError : Type 0 where
  directory_error encoding_error write_error : SaveError

-- The file, or its absence, after `os.MkdirAll`, `json.Marshal` and `os.WriteFile`, and the error.
unfoldable pub save :
    {A : Type 0} → Codec A → A → Outcome → Option Str → Option Str × Option SaveError
save c a written file = (some (c.encode a), none)
save c a no_directory file = (file, some directory_error)
save c a not_encoded file = (file, some encoding_error)
save c a (not_written left) file = (left, some write_error)

pub data Stored (A : Type 0) : Type 0 where
  absent : Stored A
  broken : Stored A
  found : A → Stored A

-- `os.ReadFile` and `json.Unmarshal`
unfoldable pub load : {A : Type 0} → Codec A → Option Str → Stored A
load c none = absent
load c (some text) = elim (c.decode text) [ none ↦ broken | some a ↦ found a ]

-- What was written is read back, if the encoding keeps it.
pub load-save :
    {A : Type 0} (c : Codec A) (a : A) (o : Outcome) (file : Option Str)
    → c.decode (c.encode a) ≡ some a
    → (save c a o file).1 ≡ none
    → load c (save c a o file).0 ≡ found a
unfolding save load
load-save c a written file h ok = rw h
load-save c a _ file h ok = ground arith
