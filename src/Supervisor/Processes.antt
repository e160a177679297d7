-- ===== src/Supervisor/Processes.antt =====
-- internal/supervisor/procfs.go: the processes of a task, as /proc shows them. A file's bytes are an
-- argument. Times of day, the floating-point CPU seconds and the page size are left out: the counts they
-- are computed from are kept. White space is ASCII's.
pub mod Redact
pub mod Owner
pub mod Stat
use Prim.Native.String.{String}
use lemul.Prelude.{
  ℕ, zero, suc, ◌+◌, ◌-◌, ◌*◌, ◌^◌, ◌≡◌, ◌↔◌, List, [], ◌∷◌, ◌++◌, Option, none, some, Bool, true,
  false, ◌&&◌, ◌||◌, leb, ltb, ◌==◌, if◌then◌else◌, length, get_elem?, arith,
}
use lemul.Prelude.Text.{Bytes, bytes, cut}
use lemul.Prelude.Int.{ℤ, pos, negsuc, ltb_ℤ, eqb_ℤ, eqb_ℤ_iff}
use lemul.Prelude.Dict.{Key, Dict, lookup, put}
use lemul.Strconv.{atoi, unsigned, negate, int_limit}

pub record ProcInfo : Type 0 where
  pub pid : ℤ
  pub ppid : ℤ
  pub name : Bytes
  pub state : Bytes
  pub rss_pages : ℤ
  pub user_ticks : ℤ
  pub system_ticks : ℤ
  pub start_ticks : ℤ
  pub session_id : String

unfoldable pub is_space : ℕ → Bool
is_space c = (c == 32) || (leb 9 c && leb c 13)

unfoldable pub last_on : ℕ → ℕ → Bytes → Option (Bytes × Bytes) → Option (Bytes × Bytes)
last_on b c s (some (before, after)) = some (c ∷ before, after)
last_on b c s none = if c == b then some ([], s) else none

-- strings.LastIndexByte, with what stands on both sides.
unfoldable pub cut_last : ℕ → Bytes → Option (Bytes × Bytes)
cut_last b [] = none
cut_last b (c ∷ s) = last_on b c s (cut_last b s)

unfoldable pub trim_left : Bytes → Bytes
trim_left [] = []
trim_left (c ∷ s) = let rest = trim_left s in if is_space c then rest else c ∷ s

unfoldable pub trim_right_on : ℕ → Bytes → Bytes
trim_right_on c [] = if is_space c then [] else c ∷ []
trim_right_on c (d ∷ s) = c ∷ d ∷ s

unfoldable pub trim_right : Bytes → Bytes
unfolding trim_right_on
trim_right [] = []
trim_right (c ∷ s) = trim_right_on c (trim_right s)

-- strings.TrimSpace
unfoldable pub trim_space : Bytes → Bytes
trim_space s = trim_left (trim_right s)

unfoldable pub flush : Bytes → List Bytes
flush [] = []
flush (c ∷ w) = (c ∷ w) ∷ []

-- strings.Fields, behind the bytes `word` of a word that has begun.
unfoldable pub fields_from : Bytes → Bytes → List Bytes
fields_from word [] = flush word
fields_from word (c ∷ s) =
    let ended = fields_from [] s in
    let longer = fields_from (word ++ c ∷ []) s in
    if is_space c then flush word ++ ended else longer

unfoldable pub fields : Bytes → List Bytes
fields s = fields_from [] s

unfoldable pub clamped : Bool → Option ℕ → ℤ
clamped minus none = pos 0
clamped true (some n) = if leb n int_limit then negate n else negsuc (int_limit - 1)
clamped false (some n) = if ltb n int_limit then pos n else pos (int_limit - 1)

-- The value of strconv.ParseInt where its error is dropped: 0 for what is no number, and the nearest
-- int64 for one out of range.
unfoldable pub parse_int_value : Bytes → ℤ
unfolding clamped
parse_int_value [] = pos 0
parse_int_value (c ∷ s) =
    if c == b'-'
    then clamped true (unsigned s)
    else if c == b'+'
    then clamped false (unsigned s)
    else clamped false (unsigned (c ∷ s))

unfoldable pub num_on : Option Bytes → ℤ
num_on none = pos 0
num_on (some w) = parse_int_value w

-- num(i)
unfoldable pub num : List Bytes → ℕ → ℤ
unfolding num_on
num rest i = num_on (get_elem? rest i)

unfoldable pub info_on : Option ℤ → Bytes → List Bytes → Option ProcInfo
info_on none name rest = none
info_on (some pid) name [] = none
info_on (some pid) name (state ∷ rest) =
    if ltb (length (state ∷ rest)) 22
    then none
    else some record {
      pid = pid;
      ppid = num (state ∷ rest) 1;
      name = name;
      state = state;
      rss_pages = num (state ∷ rest) 21;
      user_ticks = num (state ∷ rest) 11;
      system_ticks = num (state ∷ rest) 12;
      start_ticks = num (state ∷ rest) 19;
      session_id = "";
    }

unfoldable pub behind_name : Bytes → Option (Bytes × Bytes) → Option ProcInfo
unfolding info_on
behind_name head none = none
behind_name head (some (name, tail)) = info_on (atoi (trim_space head)) name (fields tail)

unfoldable pub stat_on : Option (Bytes × Bytes) → Option ProcInfo
unfolding behind_name
stat_on none = none
stat_on (some (head, after)) = behind_name head (cut_last b')' after)

-- parseStat. A last ')' in front of the first '(' is refused like none at all.
unfoldable pub parse_stat : Bytes → Option ProcInfo
unfolding stat_on
parse_stat s = stat_on (cut b'(' s)

instance abbrev pub int_key : Key ℤ
int_key = record { test = eqb_ℤ; test_iff = eqb_ℤ_iff }

-- byPID: a later process of the same number takes the place of an earlier one.
unfoldable pub by_pid : List ProcInfo → Dict ℤ ProcInfo → Dict ℤ ProcInfo
by_pid [] d = d
by_pid (p ∷ ps) d = by_pid ps (put p.pid p d)

unfoldable pub owned_on : Option String → Bool → String → String
owned_on (some id) has_parent above = id
owned_on none has_parent above = if has_parent then above else ""

-- attribute, for `depth` rounds: the session that owns `cur` or the nearest of its ancestors.
unfoldable pub attribute : Dict ℤ ProcInfo → Dict ℤ String → ℕ → Option ProcInfo → String
attribute all owner depth none = ""
attribute all owner zero (some p) = ""
attribute all owner (suc depth) (some p) =
    let above = attribute all owner depth (lookup p.ppid all) in
    owned_on (lookup p.pid owner) (ltb_ℤ (pos 0) p.ppid) above

-- The depth that readProcesses gives it.
abbrev pub max_depth : ℕ
max_depth = 64

attribute_each : Dict ℤ ProcInfo → Dict ℤ String → List ProcInfo → List ProcInfo
attribute_each all owner [] = []
attribute_each all owner (p ∷ ps) =
    record p { session_id = attribute all owner max_depth (some p) } ∷ attribute_each all owner ps

-- readProcesses, of the processes that could be read (`none`: there is no /proc), without the sort.
unfoldable pub read_processes : Option (List ProcInfo) → Dict ℤ String → Option (List ProcInfo)
unfolding attribute_each
read_processes none owner = none
read_processes (some ps) owner = some (attribute_each (by_pid ps []) owner ps)
