-- ===== src/PolicyEditor/Examples.antt =====
-- An editor of a policy, on which the theorems about it are applied.
use clerq.Prelude.{◌≡◌, ◌⊎◌, refl, false, codes, none, some, List, [], ◌∷◌}
use clerq.Types.{Policy}
use clerq.PolicyEditor.{
  Update, open_editor, update_of, edited, set_brief, set_name, Event, edit, save, save_succeeded,
  save_failed, timer_ended, step, run, up, down, index_of, move_rule, on_edit, press_save, on_saved,
  on_save_failed, on_timer, swap_next,
}
use clerq.PolicyEditor.Saving.{names, Carries, drafts-run, run-edit_while_saving}

abbrev policy : Policy
policy = record {
  id = 3;
  name = codes "Invoices";
  brief = [];
  email_inbox_enabled = false;
  email_address = none;
  email_reply_mode = none;
  email_pass_message = none;
  email_fail_message = none;
  current_version_num = 1;
  rules = [];
}

-- An edit, a save that fails, and one that is accepted after the first timer.
abbrev events : List Event
events =
    edit (set_brief (codes "totals"))
    ∷ save (codes "Invoices")
    ∷ save_failed
    ∷ edit (set_name (codes " "))
    ∷ save (codes "Invoices")
    ∷ timer_ended
    ∷ save_succeeded
    ∷ []

editor_tests :
    ((run events (open_editor policy)).dirty ≡ false)
    × (move_rule (4 ∷ 5 ∷ 6 ∷ []) 6 up ≡ some (4 ∷ 6 ∷ 5 ∷ []))
    × (move_rule (4 ∷ 5 ∷ 6 ∷ []) 6 down ≡ some (4 ∷ 5 ∷ 6 ∷ []))
unfolding run step open_editor move_rule on_edit press_save on_saved on_save_failed on_timer
    index_of swap_next
editor_tests = (refl, refl, refl)

drafts-run_example :
    let e = run events (open_editor policy) in
    (e.drafts ≡ (open_editor policy).drafts)
    ⊎ ((u : Update) × (e.stored ≡ some u) × Carries (names events) e.drafts u)
unfolding run step open_editor on_edit press_save on_saved on_save_failed on_timer
drafts-run_example = drafts-run policy events (refl, (refl, tt)) refl

run-edit_while_saving_example :
    let e' =
      run
        (save (codes "Invoices") ∷ edit (set_brief (codes "late")) ∷ save_succeeded ∷ [])
        (open_editor policy) in
    (e'.dirty ≡ false)
    × (e'.drafts ≡ edited (set_brief (codes "late")) (open_editor policy).drafts)
    × (e'.stored ≡ some (update_of (codes "Invoices") (open_editor policy).drafts))
unfolding open_editor
run-edit_while_saving_example =
    run-edit_while_saving (open_editor policy) (codes "Invoices") (set_brief (codes "late")) refl
      (λ e. cc)
