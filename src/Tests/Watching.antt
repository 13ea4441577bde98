-- ===== src/Tests/Watching.antt =====
-- A UNIX socket whose file is removed.
use go_listener.Common.{◌≡◌, ◌≤◌, refl, arith, true, false, [], ok, err, inl, inr, ◌⊎◌}
use go_listener.Common.Text.{codes, equal}
use go_listener.System.{World, watched_listener, open_socket, syscall_as}
use go_listener.Unix
use go_listener.Unix.Laws.{IsFresh}
use go_listener.Unix.Watch.{tick, accept, err_closed}
use go_listener.Unix.Watch.Files.{
  period, Surroundings, surroundings, Steps, stop, next, changes, passes, ticks, is_same, seen,
}
use go_listener.Unix.Watch.Timely.{listen-watched}
use go_listener.Tests.World.{working, start}

abbrev after : World
unfolding Unix.listen
after = (Unix.listen working (codes "/s") 0o600 start).1

listened :
    Unix.listen working (codes "/s") 0o600 start ≡ (ok (watched_listener 3 (codes "/s")), after)
unfolding Unix.listen Unix.make_temp_dir Unix.listen_unix Unix.set_mode Unix.install Unix.identify
    Unix.protect Unix.bind_socket Unix.remove Unix.unlink Unix.cleanup Unix.rename Unix.erase
    Unix.lookup Unix.has_children Unix.has_prefix open_socket syscall_as equal
listened = refl

working-IsFresh : IsFresh working (working.temp_dir (codes "/s")) []
unfolding Unix.lookup Unix.has_children
working-IsFresh = record { unused = refl; empty = refl; removes = λ k. refl }

-- The file is removed, `watch` looks at it after 5 seconds, and another second passes.
abbrev removed : Surroundings
removed = record {
  watched = record { closed = false; socket_closed = true; watching = false };
  files = [];
  since_tick = 1;
  replaced_for = 6;
  disturbed = true;
}

removed_run : Steps 3 (codes "/s") (surroundings after.files) removed
unfolding is_same seen Unix.lookup tick equal
removed_run = next _ _ _ (changes [] (surroundings after.files)) (
    next _ _ _ (passes _ (inl (omega arith))) (
      next _ _ _ (passes _ (inl (omega arith))) (
        next _ _ _ (passes _ (inl (omega arith))) (
          next _ _ _ (passes _ (inl (omega arith))) (
            next _ _ _ (passes _ (inl (omega arith))) (
              next _ _ _ (ticks false _ refl refl) (next _ _ _ (passes _ (inr refl)) (stop _))))))))

listen-watched_example :
    ((6 ≤ period)
      ⊎ ((removed.watched.socket_closed ≡ true)
          × (accept (codes "c") removed.watched ≡ err err_closed)))
    × ((removed.watched.socket_closed ≡ false)
        ⊎ ((removed.watched.closed ≡ true) ⊎ (removed.disturbed ≡ true)))
unfolding Unix.has_prefix equal
listen-watched_example =
    listen-watched working (codes "/s") 0o600 start working-IsFresh (λ h. cc) refl (omega arith, tt)
      (watched_listener 3 (codes "/s")) after listened removed removed_run (codes "c")
