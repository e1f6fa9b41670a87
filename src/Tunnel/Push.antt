-- ===== src/Tunnel/Push.antt =====
-- What a push of targets and a reload from the file do to the list of targets.
use k8s_docker_operator.Prelude.{
  ◌≡◌, true, false, not, ◌&&◌, List, [], ◌∷◌, Option, none, some, All, arith, if◌then◌else◌,
}
use k8s_docker_operator.Prelude.Int.{ℤ, ltb_ℤ}
use k8s_docker_operator.Outside.Time.{sub_time}
use k8s_docker_operator.Exec.{given}
use k8s_docker_operator.Tunnel.Targets.{
  Text, is_empty, parse_targets, targets_equal, targets_equal_iff,
}
use k8s_docker_operator.Tunnel.Server.{
  Server, push_window, recent_push, file_targets, load_targets_from_file, handle_reload,
}

-- A reload from a readable file makes the file's targets the server's, except within two minutes of a
-- push that they differ from; then the targets stay. Nothing else of the server changes.
pub load_targets_from_file-exact :
    (now : ℤ) (content : Text) (s : Server)
    → load_targets_from_file now (some content) s ≡ record s {
      targets =
          if recent_push now s && not (targets_equal (file_targets content) s.push_targets)
          then s.targets
          else file_targets content;
    }
unfolding load_targets_from_file
load_targets_from_file-exact now content s =
    ground (arith, targets_equal_iff (file_targets content) s.targets)

-- The reloads of the watcher, each with its time and what it reads.
unfoldable pub reloads : List (ℤ × Option Text) → Server → Server
reloads [] s = s
reloads ((now, file) ∷ rest) s = reloads rest (load_targets_from_file now file s)

record IsPushed (time : ℤ) (pushed : List Text) (s : Server) : Type 0 where
  targets_are : s.targets ≡ pushed
  push_is : s.push_targets ≡ pushed
  time_is : s.last_push_time ≡ some time

load-IsPushed :
    (time now : ℤ) (pushed : List Text) (file : Option Text) (s : Server)
    → ltb_ℤ (sub_time now time) push_window ≡ true
    → IsPushed time pushed s
    → IsPushed time pushed (load_targets_from_file now file s)
unfolding load_targets_from_file recent_push given
load-IsPushed time now pushed none s soon h = h
load-IsPushed time now pushed (some content) s soon h =
    ground (arith, targets_equal_iff (file_targets content) s.push_targets)

reloads-IsPushed :
    (time : ℤ) (pushed : List Text) (files : List (ℤ × Option Text)) (s : Server)
    → All (λ f. ltb_ℤ (sub_time f.0 time) push_window ≡ true) files
    → IsPushed time pushed s
    → IsPushed time pushed (reloads files s)
unfolding reloads
reloads-IsPushed time pushed [] s soon h = h
reloads-IsPushed time pushed ((now, file) ∷ files) s soon h =
    reloads-IsPushed time pushed files _ soon.1 (load-IsPushed time now pushed file s soon.0 h)

-- After a POST of targets, no reload from the file within two minutes changes them, whatever the file
-- holds and however often it is read.
pub push_lasts :
    (targets : Text) (time : ℤ) (file : Option Text) (files : List (ℤ × Option Text)) (s : Server)
    → is_empty targets ≡ false
    → All (λ f. ltb_ℤ (sub_time f.0 time) push_window ≡ true) files
    → (reloads files (handle_reload true targets time file s).1).targets ≡ parse_targets targets
unfolding handle_reload
push_lasts targets time file files s given_some soon =
    (reloads-IsPushed time (parse_targets targets) files _ soon (ground arith)).targets_are
