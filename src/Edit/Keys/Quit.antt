-- ===== src/Edit/Keys/Quit.antt =====
-- How a session at the keyboard ends.
use rmdos.Base.{
  ℕ, ◌%◌, Bool, false, List, [], ◌∷◌, ◌++◌, ◌≡◌, ◌≢◌, ◌⊎◌, inl, inr, refl, ap, ◌∙◌, arith, slice,
}
use rmdos.Runtime.{toupper_ch}
use rmdos.Edit.{Editor}
use rmdos.Edit.Keys.{Mode, State, editing, finding, quitting, finished, step, run}
use rmdos.Edit.Keys.Saves.{last_saved, run-IsClean}

-- Some key of the list was the answer `Y` to the question whether to quit with changes.
pub record Confirmed (write : ℕ → ℕ → ℕ) (created : Bool) (st : State) (keys : List ℕ)
    : Type 0 where
  pub earlier : List ℕ
  pub answer : ℕ
  pub later : List ℕ
  pub splits : keys ≡ earlier ++ answer ∷ later
  pub asked : (run write created st earlier).0 ≡ quitting
  pub yes_given : toupper_ch (answer % 256) ≡ b'Y'

module _ (write : ℕ → ℕ → ℕ) (created : Bool) where
  -- One key ends the session only on Escape with nothing unsaved, or on `Y` to the question.
  step_ends :
      (mode : Mode) (s : Editor) (key : ℕ)
      → mode ≢ finished
      → (step write created (mode, s) key).0 ≡ finished
      → ((step write created (mode, s) key).1.dirty ≡ false)
        ⊎ ((mode ≡ quitting) × (toupper_ch (key % 256) ≡ b'Y'))
  unfolding step
  step_ends editing s key m e = ground arith
  step_ends finding s key m e = ground arith
  step_ends quitting s key m e = ground arith
  step_ends finished s key m e = absurd (m refl)

  run-finished : (s : Editor) (keys : List ℕ) → run write created (finished, s) keys ≡ (finished, s)
  unfolding run step
  run-finished s [] = refl
  run-finished s (k ∷ ks) = run-finished s ks

  Confirmed-cons :
      (st : State) (k : ℕ) (ks : List ℕ)
      → Confirmed write created (step write created st k) ks
      → Confirmed write created st (k ∷ ks)
  unfolding run
  Confirmed-cons st k ks c = record {
    earlier = k ∷ c.earlier;
    answer = c.answer;
    later = c.later;
    splits = ap (◌∷◌ k) c.splits;
    asked = c.asked;
    yes_given = c.yes_given;
  }

  mode_cases : (m : Mode) → (m ≡ finished) ⊎ (m ≢ finished)
  mode_cases editing = inr cc
  mode_cases finding = inr cc
  mode_cases quitting = inr cc
  mode_cases finished = inl refl

  -- A session that has ended has the dirty flag clear, or was told to.
  run_ends :
      (keys : List ℕ) (mode : Mode) (s : Editor)
      → mode ≢ finished
      → (run write created (mode, s) keys).0 ≡ finished
      → ((run write created (mode, s) keys).1.dirty ≡ false)
        ⊎ Confirmed write created (mode, s) keys
  unfolding run
  run_ends [] mode s m e = absurd (m e)
  run_ends (k ∷ ks) mode s m e =
      go (step write created (mode, s) k) refl (mode_cases (step write created (mode, s) k).0)
        (run_ends ks)
    where
      go :
          (st : State)
          → step write created (mode, s) k ≡ st
          → (st.0 ≡ finished) ⊎ (st.0 ≢ finished)
          → ((mode : Mode) (s : Editor)
              → mode ≢ finished
              → (run write created (mode, s) ks).0 ≡ finished
              → ((run write created (mode, s) ks).1.dirty ≡ false)
                ⊎ Confirmed write created (mode, s) ks)
          → ((run write created st ks).1.dirty ≡ false) ⊎ Confirmed write created (mode, s) (k ∷ ks)
      go (mode', s') eq (inl f) ih =
          let ended : (step write created (mode, s) k).0 ≡ finished =
            ap (λ (st : State). st.0) eq ∙ f in
          elim (step_ends mode s k m ended) [
            | inl d ↦ inl (rw (f, run-finished s' ks) (rw eq at d))
            | inr (q, y) ↦ inr (record {
              earlier = [];
              answer = k;
              later = ks;
              splits = refl;
              asked = q;
              yes_given = y;
            })
          ]
      go (mode', s') eq (inr f) ih = elim (ih mode' s' f (rw (← eq) e)) [
        | inl clean ↦ inl clean
        | inr c ↦ inr (Confirmed-cons (mode, s) k ks (rw eq c))
      ]

  -- Let `last` be the text last saved where the session, not yet ended, begins, which is the
  -- editor's text if the dirty flag is clear there. When the session has ended, the editor's text
  -- is the one that the last complete save wrote, or `last` if there was none, unless the user
  -- answered `Y` to the question whether to quit with changes.
  pub run-Confirmed :
      (keys : List ℕ) (mode : Mode) (s : Editor) (last : List ℕ)
      → mode ≢ finished
      → (s.dirty ≡ false → slice s.text 0 s.text_len ≡ last)
      → (run write created (mode, s) keys).0 ≡ finished
      → let e = (run write created (mode, s) keys).1 in
        (slice e.text 0 e.text_len ≡ last_saved write created (mode, s) keys last)
        ⊎ Confirmed write created (mode, s) keys
  run-Confirmed keys mode s last m clean e = elim (run_ends keys mode s m e) [
    | inl d ↦ inl (run-IsClean write created keys (mode, s) last clean d)
    | inr c ↦ inr c
  ]
