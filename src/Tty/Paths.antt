-- ===== src/Tty/Paths.antt =====
-- timeout/activity_source_tty.go: the cache of TTY paths. What the file system says and the readings of
-- the clock are parameters; each part that holds the lock is one step of the call. The cache is a list in
-- the order in which a loop over the map meets its entries.
pub mod Size
use che_machine_exec.Common.{
  ℕ, zero, suc, ◌-◌, Text, codes, text_eq, is_empty, has_prefix, Bool, true, false, not, ◌&&◌, ◌||◌,
  Option, none, some, List, [], ◌∷◌, if◌then◌else◌, ltb, leb, length,
}
use che_machine_exec.Common.Int.{ℤ, pos, ltb_ℤ, leb_ℤ, ◌-ℤ◌}
use che_machine_exec.Common.Paths.{join_path}

-- `ttyCache` under its PID; times are nanoseconds, and 0 is the zero time.
pub record TtyEntry : Type 0 where
  pub pid : Text
  pub path : Text
  pub atime : ℤ
  pub cached_at : ℤ
  pub valid : Bool

abbrev pub TtyCache : Type 0
TtyCache = List TtyEntry

abbrev pub tty_cache_duration : ℤ
tty_cache_duration = pos 2000000000

abbrev pub tty_cache_max_size : ℕ
tty_cache_max_size = 1000

abbrev pub tty_cache_cleanup_at : ℕ
tty_cache_cleanup_at = 800

-- The access time of a path, the target of a link, and whether /proc has no directory of that name.
pub record Links : Type 0 where
  pub atime : Text → Option ℤ
  pub readlink : Text → Option Text
  pub is_gone : Text → Bool

-- The readings of the clock in one call; the loop of the eviction reads it once for each entry it removes.
pub record Readings : Type 0 where
  pub looked_up : ℤ
  pub cleaned : ℤ
  pub evicting : ℕ → ℤ
  pub stored : ℤ

unfoldable pub find_entry : Text → TtyCache → Option TtyEntry
unfolding text_eq
find_entry pid [] = none
find_entry pid (e ∷ cache) = if text_eq e.pid pid then some e else find_entry pid cache

unfoldable pub delete_entry : Text → TtyCache → TtyCache
unfolding text_eq
delete_entry pid [] = []
delete_entry pid (e ∷ cache) =
    let rest = delete_entry pid cache in if text_eq e.pid pid then rest else e ∷ rest

unfoldable pub put_entry : TtyEntry → TtyCache → TtyCache
unfolding delete_entry
put_entry e cache = e ∷ delete_entry e.pid cache

unfoldable pub cleanup_tty_cache : Links → ℤ → TtyCache → TtyCache
unfolding join_path
cleanup_tty_cache links now [] = []
cleanup_tty_cache links now (e ∷ cache) =
    let rest = cleanup_tty_cache links now cache in
    if leb_ℤ tty_cache_duration (now -ℤ e.cached_at)
    then rest
    else if links.is_gone (join_path (codes "/proc") e.pid)
    then rest
    else e ∷ rest

-- The search for the oldest entry, with the oldest one so far.
unfoldable pub oldest : ℤ → Text → TtyCache → Text
oldest oldest_time oldest_pid [] = oldest_pid
oldest oldest_time oldest_pid (e ∷ cache) =
    let older = oldest e.cached_at e.pid cache in
    let kept = oldest oldest_time oldest_pid cache in
    if ltb_ℤ e.cached_at oldest_time then older else kept

-- The loop of the eviction; the first argument bounds its rounds.
unfoldable pub evict : ℕ → (ℕ → ℤ) → TtyCache → TtyCache
unfolding oldest delete_entry is_empty
evict zero clock cache = cache
evict (suc rounds) clock cache =
    let pid = oldest (clock (length cache)) [] cache in
    let rest = evict rounds clock (delete_entry pid cache) in
    if not (ltb (tty_cache_cleanup_at - 50) (length cache))
    then cache
    else if is_empty pid
    then cache
    else rest

unfoldable pub clean_if_large : Links → ℤ → TtyCache → TtyCache
unfolding cleanup_tty_cache
clean_if_large links now cache =
    if leb tty_cache_cleanup_at (length cache) then cleanup_tty_cache links now cache else cache

unfoldable pub evict_if_full : (ℕ → ℤ) → TtyCache → TtyCache
unfolding evict
evict_if_full clock cache =
    if leb tty_cache_max_size (length cache) then evict (length cache) clock cache else cache

-- The result of `getCachedTTYInfo`, and the cache after it.
pub record TtyInfo : Type 0 where
  pub path : Text
  pub atime : ℤ
  pub valid : Bool
  pub cache : TtyCache

abbrev pub failed_entry : Text → Text → ℤ → TtyEntry
failed_entry pid path now = record {
  pid = pid;
  path = path;
  atime = pos 0;
  cached_at = now;
  valid = false;
}

-- A cache hit.
unfoldable pub from_cache : Links → TtyEntry → TtyCache → TtyInfo
from_cache links cached cache =
    if not cached.valid
    then record { path = []; atime = pos 0; valid = false; cache = cache }
    else elim (links.atime cached.path) [
      | none ↦ record { path = cached.path; atime = cached.atime; valid = false; cache = cache }
      | some atime ↦ record { path = cached.path; atime = atime; valid = true; cache = cache }
    ]

-- A path whose access time is known: the cache is cleaned and cut before the entry is stored.
unfoldable pub store_path : Links → Readings → Text → Text → ℤ → TtyCache → TtyCache
unfolding clean_if_large evict_if_full put_entry
store_path links clock pid target atime cache =
    put_entry
      (record { pid = pid; path = target; atime = atime; cached_at = clock.stored; valid = true })
      (evict_if_full clock.evicting (clean_if_large links clock.cleaned cache))

-- The resolution of a target.
unfoldable pub resolve_target : Links → Readings → Text → Text → TtyCache → TtyInfo
unfolding has_prefix store_path put_entry
resolve_target links clock pid target cache =
    if not (has_prefix target (codes "/dev/pts/")) && not (has_prefix target (codes "/dev/tty"))
    then record {
      path = [];
      atime = pos 0;
      valid = false;
      cache = put_entry (failed_entry pid [] clock.stored) cache;
    }
    else elim (links.atime target) [
      | none ↦ record {
        path = target;
        atime = pos 0;
        valid = false;
        cache = put_entry (failed_entry pid target clock.stored) cache;
      }
      | some atime ↦ record {
        path = target;
        atime = atime;
        valid = true;
        cache = store_path links clock pid target atime cache;
      }
    ]

unfoldable pub resolve_tty : Links → Readings → Text → TtyCache → TtyInfo
unfolding resolve_target join_path put_entry
resolve_tty links clock pid cache =
    elim (links.readlink
      (join_path (join_path (join_path (codes "/proc") pid) (codes "fd")) (codes "0"))) [
        | none ↦ record {
          path = [];
          atime = pos 0;
          valid = false;
          cache = put_entry (failed_entry pid [] clock.stored) cache;
        }
        | some target ↦ resolve_target links clock pid target cache
      ]

abbrev pub is_recent : ℤ → TtyEntry → Bool
is_recent now e = ltb_ℤ (now -ℤ e.cached_at) tty_cache_duration

unfoldable pub get_cached_tty_info : Links → Readings → Text → TtyCache → TtyInfo
unfolding find_entry from_cache resolve_tty
get_cached_tty_info links clock pid cache = elim (find_entry pid cache) [
  | none ↦ resolve_tty links clock pid cache
  | some cached ↦
      if is_recent clock.looked_up cached
      then from_cache links cached cache
      else resolve_tty links clock pid cache
]
