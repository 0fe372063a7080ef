-- ===== src/Agent/Updater/Examples.antt =====
-- A release that is signed in time, and a file that names an older image.
use microtensor_compute.Common.{◌≡◌, refl, not, true, List, [], ◌∷◌, ◌++◌, some, keep_if}
use microtensor_compute.Common.Text.{Text, codes, text_eq}
use microtensor_compute.Agent.Updater.{
  Release, Scheme, Docker, applied, check_once, rewrite_env, env_key,
}
use microtensor_compute.Agent.Updater.Laws.{
  Answers, check_once-Answers, rewrite_env_lem, names_image,
}

-- A signature that is the hotkey itself.
abbrev signed_by : Scheme
signed_by hotkey message signature = text_eq hotkey signature

abbrev digest : Text
digest = codes "sha256:0123456789abcdef0123456789abcdef0123456789abcdef0123456789abcdef"

abbrev release : Release
release = record {
  digest = digest;
  timestamp = 1000;
  signature = codes "5F";
  validator = codes "5F";
}

abbrev docker : Docker
docker = record {
  running = codes "sha256:00";
  pulls = λ d. true;
  digests = λ d. some ((codes "agent@" ++ d) ∷ []);
  has_compose_file = true;
  env_writable = true;
  helper_succeeds = λ d. true;
}

applied-release :
    (check_once signed_by docker (some release) (codes "5F" ∷ []) 1500).0 ≡ applied digest
unfolding check_once
applied-release = refl

check_once-Answers_example :
    Answers signed_by docker release
      (codes "5F" ∷ [])
      1500
      (check_once signed_by docker (some release) (codes "5F" ∷ []) 1500)
check_once-Answers_example = check_once-Answers signed_by docker release (codes "5F" ∷ []) 1500

abbrev env : List Text
env = codes "PORT=1" ∷ codes "AGENT_IMAGE_SHA256=old" ∷ codes "HOST=a" ∷ []

rewrite_env_lem_example :
    (keep_if names_image (rewrite_env env digest) ≡ (env_key ++ digest) ∷ [])
    × (keep_if (λ l. not (names_image l)) (rewrite_env env digest)
        ≡ keep_if (λ l. not (names_image l)) env)
rewrite_env_lem_example = rewrite_env_lem env digest
