-- ===== src/Lnnode/Joining.antt =====
-- How the end of the node's task makes `main` return.
use ln_node.Prelude.{
  ◌≡◌, refl, Bool, true, false, ok, err, ◌⊎◌, inl, inr, Result-cases, returned, panicked, arith,
}
use ln_node.Node.Start.{Start, waits, ends}
use ln_node.Lnnode.{
  SocketFile, IsSocketFile, Signal, none_yet, interrupted, not_listening, MainError, exited, Task,
  goes_on, joined, node_task, shutdown, finish, await_signal,
}

Task-cases : (t : Task) → (t ≡ goes_on) ⊎ ((t ≡ joined (ok tt)) ⊎ (t ≡ joined (err tt)))
Task-cases goes_on = inl refl
Task-cases (joined (ok _)) = inr (inl refl)
Task-cases (joined (err _)) = inr (inr refl)

node_task-eq-ok : (t : Start) → node_task t ≡ joined (ok tt) → t ≡ ends (returned (ok tt))
unfolding node_task
node_task-eq-ok waits h = absurd (cc h)
node_task-eq-ok (ends panicked) h = absurd (cc h)
node_task-eq-ok (ends (returned (err e))) h = absurd (cc h)
node_task-eq-ok (ends (returned (ok _))) h = refl

pub shutdown-eq-true : (g : Signal) → shutdown g ≡ true → g ≡ interrupted
unfolding shutdown
shutdown-eq-true interrupted h = refl
shutdown-eq-true none_yet h = absurd (cc h)
shutdown-eq-true not_listening h = absurd (cc h)

module _ (U : SocketFile) (V : IsSocketFile U) where
  finish-eq-ok :
      (t : Task) (u u' : U.State)
      → finish U t u ≡ (exited (ok tt), u')
      → (t ≡ joined (ok tt)) × (U.exists u' ≡ false)
  unfolding finish
  finish-eq-ok goes_on u u' h = absurd (cc h)
  finish-eq-ok (joined (err _)) u u' h = absurd (cc h)
  finish-eq-ok (joined (ok _)) u u' h = elim (Result-cases (U.remove_file u).0) [
    | inr (e, failed) ↦ absurd (ground (arith, h, failed))
    | inl (_, done) ↦ (refl, ground (arith, h, done, V.remove_removes u done))
  ]

  finish-eq-err :
      (t : Task) (u u' : U.State) (e : MainError) → finish U t u ≡ (exited (err e), u') → u' ≡ u
  unfolding finish
  finish-eq-err goes_on u u' e h = absurd (cc h)
  finish-eq-err (joined (err _)) u u' e h = ground (arith, h)
  finish-eq-err (joined (ok _)) u u' e h = elim (Result-cases (U.remove_file u).0) [
    | inr (e', failed) ↦ absurd (ground (arith, h, failed))
    | inl (_, done) ↦ absurd (ground (arith, h, done))
  ]

  pub await_signal-eq-ok :
      (g : Signal) (starts : Bool → Start) (u u' : U.State)
      → await_signal U g starts u ≡ (exited (ok tt), u')
      → (starts (shutdown g) ≡ ends (returned (ok tt))) × (U.exists u' ≡ false)
  unfolding await_signal
  await_signal-eq-ok none_yet starts u u' h = absurd (cc h)
  await_signal-eq-ok interrupted starts u u' h =
      let (e, gone) = finish-eq-ok (node_task (starts (shutdown interrupted))) u u' h in
      (node_task-eq-ok _ e, gone)
  await_signal-eq-ok not_listening starts u u' h =
      let (e, gone) = finish-eq-ok (node_task (starts (shutdown not_listening))) u u' h in
      (node_task-eq-ok _ e, gone)

  pub await_signal-eq-err :
      (g : Signal) (starts : Bool → Start) (u u' : U.State) (e : MainError)
      → await_signal U g starts u ≡ (exited (err e), u')
      → u' ≡ u
  unfolding await_signal
  await_signal-eq-err none_yet starts u u' e h = absurd (cc h)
  await_signal-eq-err interrupted starts u u' e h = finish-eq-err _ u u' e h
  await_signal-eq-err not_listening starts u u' e h = finish-eq-err _ u u' e h
