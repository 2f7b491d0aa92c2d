-- ===== src/Group/Workers/Overtaking.antt =====
-- The order in which the workers of cache/group.go finish.
use go.Common.{ℕ, ◌≤◌, ◌≡◌, refl, false, [], ◌∷◌, arith}
use go.Group.{SyncTask, enqueue}
use go.Group.Workers.{
  Pool, become, new_pool, send, receive, finish, sends, receives, finishes, Reaches, start, after,
}

module _ (size : ℕ) (first second : SyncTask) where
  abbrev s0 : Pool
  s0 = send first (new_pool size)

  abbrev s1 : Pool
  s1 = send second s0

  abbrev s2 : Pool
  s2 = receive 0 false first (second ∷ []) s1

  abbrev s3 : Pool
  s3 = receive 1 false second [] s2

  abbrev s4 : Pool
  s4 = finish 1 false second s3

  abbrev s5 : Pool
  s5 = finish 0 false first s4

  -- From a new group with two workers or more, whatever two tasks are sent one after the other,
  -- there is a run in which the second has been processed before the first.
  pub overtaken :
      2 ≤ size
      → (s : Pool) × Reaches (new_pool size) s
        × (s.done ≡ false)
        × (s.sent ≡ first ∷ second ∷ [])
        × (s.processed ≡ second ∷ first ∷ [])
  unfolding new_pool send enqueue receive finish become
  overtaken two =
      let way1 =
        after _ _ s1 (after _ _ s0 (start (new_pool size)) (sends first _)) (sends second s0) in
      let way2 = after _ _ s2 way1 (receives 0 first (second ∷ []) s1 (ground arith) refl) in
      let way3 = after _ _ s3 way2 (receives 1 second [] s2 (ground arith) refl) in
      let way4 = after _ _ s4 way3 (finishes 1 false second s3 refl) in
      let way5 = after _ _ s5 way4 (finishes 0 false first s4 refl) in (s5, way5, refl, refl, refl)
