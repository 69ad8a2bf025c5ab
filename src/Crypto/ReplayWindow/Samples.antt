-- ===== src/Crypto/ReplayWindow/Samples.antt =====
-- The theorems on the replay window at concrete counters.
use capsi.Base.{ℕ, ◌≡◌, not, ◌&&◌, List, [], ◌∷◌, if◌then◌else◌, replicate}
use capsi.Crypto.ReplayWindow.{empty_window, accept}
use capsi.Crypto.ReplayWindow.Refinement.{
  has_passed, is_recent, Remembers, accept_lem, accept_all, IsWithoutReplay, Remembers-empty,
  no_replay,
}

abbrev marked : List ℕ
marked = 5 ∷ replicate 15 0

accept_lem_example :
    let (w', passed) = accept 7 empty_window in
    (passed ≡ not (has_passed 7 []) && is_recent 7 [])
    × Remembers w' (if passed then 7 ∷ [] else [])
accept_lem_example = accept_lem 7 empty_window [] Remembers-empty

no_replay_example : IsWithoutReplay ((accept_all (7 ∷ 5 ∷ 7 ∷ []) empty_window).1)
no_replay_example = no_replay (7 ∷ 5 ∷ 7 ∷ [])
