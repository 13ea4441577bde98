-- ===== src/Unix/Watch/Files.antt =====
-- unix/listener.go: the watched listener beside the files and the clock.
use go_listener.Common.{
  ℕ, suc, ◌<◌, ◌≡◌, Bool, true, false, not, ◌||◌, Option, none, some, ◌⊎◌, if◌then◌else◌, ◌==◌,
}
use go_listener.Common.Text.{Bytes}
use go_listener.System.{Node, socket}
use go_listener.Unix.{Files, lookup}
use go_listener.Unix.Watch.{Watched, new_watched_listener, close, tick}

-- The seconds between two ticks of the timer of `watch`.
abbrev pub period : ℕ
period = 5

-- `err == nil && os.SameFile(info, latestInfo)`, on what `os.Lstat` finds and the socket that `info`
-- is of.
unfoldable pub is_same : ℕ → Option Node → Bool
is_same h (some (socket h' mode)) = h' == h
is_same h _ = false

-- The listener, the files, the seconds since the last tick, the seconds for which the path has not
-- been the socket's (0 if it is), and whether it ever was not or `os.Lstat` has failed.
pub record Surroundings : Type 0 where
  pub watched : Watched
  pub files : Files
  pub since_tick : ℕ
  pub replaced_for : ℕ
  pub disturbed : Bool

abbrev pub surroundings : Files → Surroundings
surroundings files = record {
  watched = new_watched_listener;
  files = files;
  since_tick = 0;
  replaced_for = 0;
  disturbed = false;
}

module _ (h : ℕ) (path : Bytes) where
  -- What `os.Lstat` finds.
  unfoldable pub seen : Bool → Files → Option Node
  unfolding lookup
  seen failed files = if failed then none else lookup path files

  -- The steps: `Close`, a tick, the return of `watch`, a second that passes, and a change of the files.
  -- The timer fires in time, and `watch` is ready for it.
  pub data Step : Surroundings → Surroundings → Type 0 where
    closes : (s : Surroundings) → Step s (record s { watched = (close s.watched).1 })
    ticks :
        (failed : Bool) (s : Surroundings)
        → s.watched.watching ≡ true
        → s.since_tick ≡ period
        → Step s (record s {
          watched = tick (is_same h (seen failed s.files)) s.watched;
          since_tick = 0;
          disturbed = failed || s.disturbed;
        })
    returns :
        (s : Surroundings)
        → s.watched.watching ≡ true
        → s.watched.closed ≡ true
        → Step s (record s { watched = record (s.watched) { watching = false } })
    passes :
        (s : Surroundings)
        → (s.since_tick < period) ⊎ (s.watched.watching ≡ false)
        → Step s (record s {
          since_tick = suc s.since_tick;
          replaced_for = if is_same h (lookup path s.files) then 0 else suc s.replaced_for;
        })
    changes :
        (files : Files) (s : Surroundings)
        → Step s (record s {
          files = files;
          replaced_for = if is_same h (lookup path files) then 0 else s.replaced_for;
          disturbed = not (is_same h (lookup path files)) || s.disturbed;
        })

  pub data Steps : Surroundings → Surroundings → Type 0 where
    stop : (s : Surroundings) → Steps s s
    next : (s t u : Surroundings) → Step s t → Steps t u → Steps s u
