-- ===== src/Tracer/Recycle.antt =====
-- A pid that the system has given to a new process before the tracer learns that the old one was
-- orphaned (src/tracer/tracer.cpp, `_add_tracee` and `_collect_orphans`).
use forktrace.Prelude.{
  ◌≡◌, refl, ap, ◌∙◌, ℤ, ◌==ℤ◌, ==ℤ_refl, true, false, Bool-cases, inl, inr, some, List, [], ◌∷◌,
  ◌++◌, arith,
}
use forktrace.Event.{Ref}
use forktrace.Action.{done, ◌>>◌}
use forktrace.Tracer.{World, Tracee, new_tracee, add_tracee}
use forktrace.Tracer.Loop.{
  contains, remove_first, collect_orphan, collect, collect_orphans, notify_orphan, check_orphans,
}

contains-++ : (pid : ℤ) (qs : List ℤ) → contains pid (qs ++ pid ∷ []) ≡ true
contains-++ pid [] = rw (==ℤ_refl pid) refl
contains-++ pid (q ∷ qs) = elim (Bool-cases (pid ==ℤ q)) [
  | inl same ↦ rw same refl
  | inr other ↦ rw other (contains-++ pid qs)
]

remove_first-++ :
    (pid : ℤ) (qs : List ℤ) → contains pid qs ≡ false → remove_first pid (qs ++ pid ∷ []) ≡ qs
remove_first-++ pid [] once = rw (==ℤ_refl pid) refl
remove_first-++ pid (q ∷ qs) once = elim (Bool-cases (pid ==ℤ q)) [
  | inl same ↦ absurd (ground (arith, same, once))
  | inr other ↦ rw other (ap (λ rs. q ∷ rs) (remove_first-++ pid qs (rw other at once)))
]

-- The notification of an orphan whose pid was recycled.
skip_recycled :
    {K : Type 0} (pid : ℤ) (w : World K)
    → w.orphans ≡ []
    → contains pid w.recycled ≡ true
    → (notify_orphan pid >> check_orphans) w
      ≡ (record w { orphans = []; recycled = remove_first pid w.recycled }, done tt)
unfolding notify_orphan check_orphans collect_orphans collect collect_orphan
skip_recycled pid w queue again = rw (queue, again) refl

recycled-add_tracee :
    {K : Type 0} (pid : ℤ) (r : Ref) (old : Tracee) (w : World K)
    → w.tracees pid ≡ some old
    → (add_tracee pid r w).0.recycled ≡ w.recycled ++ pid ∷ []
unfolding add_tracee
recycled-add_tracee pid r old w here = rw here refl

-- Where a new tracee gets the pid of an older one, and the notification that the older one was orphaned
-- comes only then, the check of the orphans returns, the new tracee stays as it is, and the pid is no
-- more known as recycled. The queue is empty and the pid not known as recycled before.
pub add_tracee-check_orphans :
    {K : Type 0} (pid : ℤ) (r : Ref) (old : Tracee) (w : World K)
    → w.orphans ≡ []
    → contains pid w.recycled ≡ false
    → w.tracees pid ≡ some old
    → (((add_tracee pid r >> (notify_orphan pid >> check_orphans)) w).1 ≡ done tt)
      × (((add_tracee pid r >> (notify_orphan pid >> check_orphans)) w).0.tracees pid
          ≡ some (new_tracee pid r))
      × (((add_tracee pid r >> (notify_orphan pid >> check_orphans)) w).0.recycled ≡ w.recycled)
unfolding add_tracee
add_tracee-check_orphans pid r old w queue once here =
    let added = recycled-add_tracee pid r old w here in
    let e =
      skip_recycled pid (add_tracee pid r w).0 queue
        (ap (contains pid) added ∙ contains-++ pid w.recycled) in
    (
      ap (λ x. x.1) e,
      ap (λ x. x.0.tracees pid) e ∙ rw (==ℤ_refl pid) refl,
      ap (λ x. x.0.recycled) e ∙ ap (remove_first pid) added ∙ remove_first-++ pid w.recycled once,
    )
