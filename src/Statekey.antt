-- ===== src/Statekey.antt =====
-- internal/statekey/statekey.go: where the two services find the signing key. The state directory has
-- one file of interest, and what the operating system and crypto/rand answer are arguments. The paths
-- and the texts of the errors are left out.
pub mod Durable
mod Tests
use lemul.Prelude.{
  ℕ, ◌≡◌, List, [], ◌∷◌, Option, none, some, Bool, true, false, ltb, if◌then◌else◌, length,
}
use lemul.Prelude.Text.{Bytes}
use lemul.Creds.{min_key_bytes}

-- The file at Path(stateDir): none, one that cannot be read, or its bytes.
pub data File : Type 0 where
  absent unreadable : File
  content : Bytes → File

-- Whether a new key reaches the file: MkdirAll fails, WriteFile fails and leaves something, or it is
-- written.
pub data Write : Type 0 where
  mkdir_failed : Write
  write_failed : File → Write
  written : Write

pub data Error : Type 0 where
  short_flag short_file no_source missing_file read_failed no_random not_written : Error

pub data Result : Type 0 where
  ok : Bytes → Result
  err : Error → Result

unfoldable pub check : Error → Bytes → Result
check e key = if ltb (length key) min_key_bytes then err e else ok key

abbrev pub check_explicit : Bytes → Result
check_explicit v = check short_flag v

abbrev pub check_file : Bytes → Result
check_file key = check short_file key

unfoldable pub read_on : File → Result
read_on absent = err missing_file
read_on unreadable = err read_failed
read_on (content key) = check_file key

-- Load: an explicit key, or else the file of a state directory that was given.
unfoldable pub load : Bytes → Bytes → File → Result
load (c ∷ v) dir file = check_explicit (c ∷ v)
load [] [] file = err no_source
load [] (c ∷ dir) file = read_on file

-- generate, of what rand.Read gave.
unfoldable pub generate : Option Bytes → Result
generate none = err no_random
generate (some key) = ok key

unfoldable pub write_on : Bytes → Write → Result × File
write_on key mkdir_failed = (err not_written, absent)
write_on key (write_failed left) = (err not_written, left)
write_on key written = (ok key, content key)

unfoldable pub create_on : Result → Write → Result × File
create_on (err e) w = (err e, absent)
create_on (ok key) w = write_on key w

unfoldable pub find_on : File → Option Bytes → Write → Result × File
find_on (content key) random w = (check_file key, content key)
find_on unreadable random w = (err read_failed, unreadable)
find_on absent random w = create_on (generate random) w

-- LoadOrCreate, with the file that it leaves.
unfoldable pub load_or_create : Bytes → Bytes → Option Bytes → Write → File → Result × File
load_or_create (c ∷ v) dir random w file = (check_explicit (c ∷ v), file)
load_or_create [] [] random w file = (generate random, file)
load_or_create [] (c ∷ dir) random w file = find_on file random w
