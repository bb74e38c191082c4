-- ===== src/PolicyEditor/Saving.antt =====
-- What an editor without unsaved changes shows is what the server holds.
use clerq.Prelude.{
  ℕ, zero, suc, ◌≡◌, ◌≢◌, refl, sym, ◌∙◌, ◌⊎◌, inl, inr, false, Text, some, List, [], ◌∷◌, ◌++◌,
  All, All-append, All-mem, Memᴰ, get_or, is_empty, trim, true, arith, subst,
}
use clerq.Types.{Policy}
use clerq.PolicyEditor.{
  Drafts, Update, or_null, or_other, Editor, idle, saving, open_editor, update_of, Edit, edited,
  Event, edit, save, save_succeeded, save_failed, timer_ended, on_edit, press_save, on_saved,
  on_save_failed, on_timer, step, run,
}

-- the names that the policy had when the save button was pressed
abbrev pub names : List Event → List Text
names [] = []
names (save policy_name ∷ xs) = policy_name ∷ names xs
names (_ ∷ xs) = names xs

-- The update has the texts and the mode of the drafts, where a message that it leaves out stands
-- for an empty one. Its name is theirs, trimmed, or one of `ns` where that is empty.
abbrev pub Carries : List Text → Drafts → Update → Type 0
Carries ns d u =
    (u.brief ≡ d.brief)
    × (u.email_reply_mode ≡ d.email_reply_mode)
    × (get_or u.email_pass_message [] ≡ d.email_pass_message)
    × (get_or u.email_fail_message [] ≡ d.email_fail_message)
    × (((is_empty (trim d.name) ≡ false) × (u.name ≡ trim d.name))
        ⊎ ((is_empty (trim d.name) ≡ true) × Memᴰ u.name ns))

or_other-name :
    (ns : List Text) (t other : Text)
    → Memᴰ other ns
    → ((is_empty t ≡ false) × (or_other t other ≡ t))
      ⊎ ((is_empty t ≡ true) × Memᴰ (or_other t other) ns)
or_other-name ns [] other m = inr (refl, m)
or_other-name ns (c ∷ t) other m = inl (refl, refl)

get_or-or_null : (t : Text) → get_or (or_null t) [] ≡ t
get_or-or_null [] = refl
get_or-or_null (c ∷ t) = refl

update_of-Carries :
    (ns : List Text) (policy_name : Text) (d : Drafts)
    → Memᴰ policy_name ns
    → Carries ns d (update_of policy_name d)
unfolding update_of
update_of-Carries ns policy_name d m = (
  refl,
  refl,
  get_or-or_null d.email_pass_message,
  get_or-or_null d.email_fail_message,
  or_other-name ns (trim d.name) policy_name m,
)

-- No edit comes while an update is pending.
abbrev pub IsQuiet : List Event → Editor → Type 0
IsQuiet [] e = Unit
IsQuiet (edit ed ∷ xs) e = (e.pending ≡ []) × IsQuiet xs (step (edit ed) e)
IsQuiet (x ∷ xs) e = IsQuiet xs (step x e)

-- what the theorem needs of an editor on the way
record IsHonest (ns : List Text) (start : Drafts) (e : Editor) : Type 0 where
  sent : All (Carries ns e.drafts) e.pending
  clean :
      e.dirty ≡ false
      → (e.drafts ≡ start) ⊎ ((u : Update) × (e.stored ≡ some u) × Carries ns e.drafts u)

step-IsHonest_edit :
    (ns : List Text) (start : Drafts) (ed : Edit) (e : Editor)
    → e.pending ≡ []
    → IsHonest ns start (step (edit ed) e)
unfolding step on_edit
step-IsHonest_edit ns start ed e h = record {
  sent = subst (All (Carries ns (edited ed e.drafts))) (sym h) tt;
  clean = λ p. cc;
}

abbrev sending : Text → Editor → Editor
sending policy_name e = record e {
  save_state = saving;
  pending = e.pending ++ update_of policy_name e.drafts ∷ [];
}

press_save-cases :
    (policy_name : Text) (e : Editor)
    → (press_save policy_name e ≡ e) ⊎ (press_save policy_name e ≡ sending policy_name e)
unfolding press_save
press_save-cases policy_name e = ground arith

press_save-IsHonest :
    (ns : List Text) (start : Drafts) (policy_name : Text) (e : Editor)
    → Memᴰ policy_name ns
    → IsHonest ns start e
    → IsHonest ns start (press_save policy_name e)
press_save-IsHonest ns start policy_name e m h = elim (press_save-cases policy_name e) [
  | inl p ↦ subst (IsHonest ns start) (sym p) h
  | inr p ↦ subst (IsHonest ns start) (sym p) (record {
    sent =
        All-append (Carries ns e.drafts) e.pending _ h.sent
          (update_of-Carries ns policy_name e.drafts m, tt);
    clean = h.clean;
  })
]

-- an answer to the oldest pending update
abbrev IsAnswered : Editor → Editor → Type 0
IsAnswered e e' =
    (e' ≡ e)
    ⊎ ((u : Update) × (us : List Update) × (e.pending ≡ u ∷ us)
        × (e'.pending ≡ us)
        × (e'.drafts ≡ e.drafts)
        × (((e'.dirty ≡ e.dirty) × (e'.stored ≡ e.stored)) ⊎ (e'.stored ≡ some u)))

on_saved-IsAnswered : (e : Editor) (us : List Update) → e.pending ≡ us → IsAnswered e (on_saved e)
unfolding on_saved
on_saved-IsAnswered e [] p = inl (ground arith)
on_saved-IsAnswered e (u ∷ us) p = inr (u, us, p, ground arith, ground arith, inr (ground arith))

on_save_failed-IsAnswered :
    (e : Editor) (us : List Update) → e.pending ≡ us → IsAnswered e (on_save_failed e)
unfolding on_save_failed
on_save_failed-IsAnswered e [] p = inl (ground arith)
on_save_failed-IsAnswered e (u ∷ us) p =
    inr (u, us, p, ground arith, ground arith, inl (ground arith, ground arith))

IsAnswered-IsHonest :
    (ns : List Text) (start : Drafts) (e e' : Editor)
    → IsAnswered e e'
    → IsHonest ns start e
    → IsHonest ns start e'
IsAnswered-IsHonest ns start e e' (inl p) h = subst (IsHonest ns start) (sym p) h
IsAnswered-IsHonest ns start e e' (inr (u, us, p, q, d, s)) h =
    let (first, rest) : All (Carries ns e.drafts) (u ∷ us) =
      subst (All (Carries ns e.drafts)) p h.sent in
    record {
      sent = rw d (rw q rest);
      clean = λ k. elim s [
        | inl (same_dirty, same_stored) ↦ rw d (rw same_stored (h.clean (sym same_dirty ∙ k)))
        | inr accepted ↦ inr (u, accepted, rw d first)
      ];
    }

on_timer-IsHonest :
    (ns : List Text) (start : Drafts) (e : Editor) (n : ℕ)
    → e.timers ≡ n
    → IsHonest ns start e
    → IsHonest ns start (on_timer e)
unfolding on_timer
on_timer-IsHonest ns start e zero p h =
    let same : on_timer e ≡ e = ground arith in subst (IsHonest ns start) (sym same) h
on_timer-IsHonest ns start e (suc n) p h =
    let fired : on_timer e ≡ record e { save_state = idle; timers = n } = ground arith in
    subst (IsHonest ns start) (sym fired) (record { sent = h.sent; clean = h.clean })

run-IsHonest :
    (ns : List Text) (start : Drafts) (xs : List Event) (e : Editor)
    → IsQuiet xs e
    → All (λ n. Memᴰ n ns) (names xs)
    → IsHonest ns start e
    → IsHonest ns start (run xs e)
unfolding run step
run-IsHonest ns start [] e q m h = h
run-IsHonest ns start (edit ed ∷ xs) e (p, q) m h =
    run-IsHonest ns start xs _ q m (step-IsHonest_edit ns start ed e p)
run-IsHonest ns start (save policy_name ∷ xs) e q (n, m) h =
    run-IsHonest ns start xs _ q m (press_save-IsHonest ns start policy_name e n h)
run-IsHonest ns start (save_succeeded ∷ xs) e q m h =
    run-IsHonest ns start xs _ q m
      (IsAnswered-IsHonest ns start e _ (on_saved-IsAnswered e e.pending refl) h)
run-IsHonest ns start (save_failed ∷ xs) e q m h =
    run-IsHonest ns start xs _ q m
      (IsAnswered-IsHonest ns start e _ (on_save_failed-IsAnswered e e.pending refl) h)
run-IsHonest ns start (timer_ended ∷ xs) e q m h =
    run-IsHonest ns start xs _ q m (on_timer-IsHonest ns start e e.timers refl h)

-- As long as no edit comes while a save is pending: an editor without the mark of unsaved changes
-- shows the policy as it was loaded; or the texts and the mode of the update that the server
-- accepted last, where the server's name is the shown one, trimmed, or, where nothing is left of
-- that, a name that the policy had when it was saved. Saves that fail, saves that overlap and the
-- timers make no difference.
pub drafts-run :
    (policy : Policy) (xs : List Event)
    → IsQuiet xs (open_editor policy)
    → (run xs (open_editor policy)).dirty ≡ false
    → let e = run xs (open_editor policy) in
      (e.drafts ≡ (open_editor policy).drafts)
      ⊎ ((u : Update) × (e.stored ≡ some u) × Carries (names xs) e.drafts u)
unfolding open_editor
drafts-run policy xs q k =
    let honest =
      run-IsHonest (names xs) (open_editor policy).drafts xs (open_editor policy) q
        (All-mem (names xs)) (record { sent = tt; clean = λ p. inl refl }) in
    honest.clean k

-- An edit that comes while a save is pending loses its mark: when the server accepts the save, the
-- editor shows no unsaved changes, though it shows the edited text and the server holds the old one.
pub run-edit_while_saving :
    (e : Editor) (policy_name : Text) (ed : Edit)
    → e.pending ≡ []
    → e.save_state ≢ saving
    → let e' = run (save policy_name ∷ edit ed ∷ save_succeeded ∷ []) e in
      (e'.dirty ≡ false)
      × (e'.drafts ≡ edited ed e.drafts)
      × (e'.stored ≡ some (update_of policy_name e.drafts))
unfolding run step press_save on_edit on_saved
run-edit_while_saving e policy_name ed h k = ground arith
