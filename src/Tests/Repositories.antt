-- ===== src/Tests/Repositories.antt =====
-- Runs of messages/src/utils/timeoutedrepository.h: elements are numbers, and the callbacks keep a
-- list of what they were called on; `removed` throws on 0.
use secure_dialogues.Common.{ℕ, ◌≡◌, refl, [], ◌∷◌, List, codes, Text, ◌==◌, if◌then◌else◌}
use secure_dialogues.Common.Maps.{pair_key}
use secure_dialogues.Common.Result.{ok, throw, Prog, runtime_error}
use secure_dialogues.Repository.{Repository, make_stored, check_in_thread}
use secure_dialogues.Repository.Expiry.{live, expired, call_each, check_in_thread_lem}

abbrev log_removed : ℕ → Prog (List ℕ) (Unit {0})
log_removed x w = if x == 0 then (throw runtime_error, w) else (ok tt, x ∷ w)

abbrev log_timeouted : ℕ → Prog (List ℕ) (Unit {0})
log_timeouted x w = (ok tt, x ∷ w)

abbrev key_of : ℕ → Text × ℕ
key_of n = (codes "d", n)

abbrev pending : Repository ℕ (Text × ℕ)
pending = record {
  default_timeout = 100;
  check_period = 120;
  values = (key_of 1, make_stored 11 40) ∷ (key_of 2, make_stored 12 90) ∷ [];
}

check_in_thread_lem_example : check_in_thread log_removed log_timeouted pending 50 [] ≡ (
  (ok tt, call_each (λ x w. x ∷ w) (expired 50 pending.values) []),
  record pending { values = live 50 pending.values },
)
check_in_thread_lem_example =
    check_in_thread_lem log_removed log_timeouted (λ x w. x ∷ w) (λ x w. refl) pending 50 []
