-- ===== src/Command/Redirect/Handles.antt =====
-- The handles that a redirection uses, as DOS's calls leave them.
use rmdos.Base.{
  ℕ, true, false, ◌&&◌, ◌≡◌, ◌≢◌, inl, inr, sym, ap, ◌∙◌, arith, ◌==◌, if◌then◌else◌, Buffer,
  Bool-cases, Option, none, some, ==→≡, ==→≢,
}
use rmdos.Command.Redirect.{Dos, put_back, put_away}

-- What the calls of DOS promise. An open file gets a handle that was closed, a duplicate stands for
-- what its original stands for, no call touches another handle, and an open handle can be forced on
-- another one.
abbrev pub Opened : {W F : Type 0} → Dos W F → Option ℕ → W → W → Type 0
Opened dos none w w' = (j : ℕ) → dos.handle w' j ≡ dos.handle w j
Opened dos (some h) w w' =
    (dos.handle w h ≡ none)
    × (dos.handle w' h ≢ none)
    × ((j : ℕ) → j ≢ h → dos.handle w' j ≡ dos.handle w j)

abbrev pub Duplicated : {W F : Type 0} → Dos W F → ℕ → Option ℕ → W → W → Type 0
Duplicated dos std none w w' = (j : ℕ) → dos.handle w' j ≡ dos.handle w j
Duplicated dos std (some h) w w' =
    (dos.handle w h ≡ none)
    × (dos.handle w' h ≡ dos.handle w std)
    × ((j : ℕ) → j ≢ h → dos.handle w' j ≡ dos.handle w j)

pub record Lawful {W F : Type 0} (dos : Dos W F) : Type 0 where
  pub opens :
      (name : Buffer) (mode : ℕ) (w : W)
      → Opened dos (dos.dos_open name mode w).0 w (dos.dos_open name mode w).1
  pub creates :
      (name : Buffer) (attr : ℕ) (w : W)
      → Opened dos (dos.dos_create name attr w).0 w (dos.dos_create name attr w).1
  pub seeks : (h : ℕ) (w : W) (j : ℕ) → dos.handle (dos.dos_seek_end h w) j ≡ dos.handle w j
  pub dups : (std : ℕ) (w : W) → Duplicated dos std (dos.dos_dup std w).0 w (dos.dos_dup std w).1
  pub forces :
      (h std : ℕ) (w : W) (j : ℕ)
      → dos.handle (dos.dos_force_dup h std w).1 j
        ≡ (if (dos.dos_force_dup h std w).0 && j == std then dos.handle w h else dos.handle w j)
  pub forces_open :
      (h std : ℕ) (w : W) → dos.handle w h ≢ none → (dos.dos_force_dup h std w).0 ≡ true
  pub closes :
      (h : ℕ) (w : W) (j : ℕ)
      → dos.handle (dos.dos_close h w) j ≡ (if j == h then none else dos.handle w j)

module _ {W F : Type 0} (dos : Dos W F) where
  -- The same handles stand for the same things.
  abbrev pub Same : W → W → Type 0
  Same w w' = (j : ℕ) → dos.handle w' j ≡ dos.handle w j

  -- From `w`, putting back and away gives the handles of `w0`.
  abbrev pub Held : W → W → ℕ → Option ℕ → Option ℕ → Type 0
  Held w0 w std opened saved =
      (w' : W) → Same w w' → Same w0 (put_away dos opened (put_back dos saved std w'))

module _ {W F : Type 0} (dos : Dos W F) (laws : Lawful dos) where
  pub opened_only :
      (h : ℕ) (w0 w1 w2 : W)
      → Opened dos (some h) w0 w1
      → Same dos w1 w2
      → Same dos w0 (put_away dos (some h) w2)
  opened_only h w0 w1 w2 (closed, was_open, others) same j = elim (Bool-cases (j == h)) [
    | inl e ↦
        let here : j ≡ h = ==→≡ j h e in
        laws.closes h w2 j
        ∙ ap (λ b. if b then none else dos.handle w2 j) e
        ∙ sym closed
        ∙ ap (dos.handle w0) (sym here)
    | inr e ↦
        laws.closes h w2 j
        ∙ ap (λ b. if b then none else dos.handle w2 j) e
        ∙ same j
        ∙ others j (==→≢ j h e)
  ]

  module _ (h s std : ℕ) (w0 w1 w2 : W) (was_open : dos.handle w0 std ≢ none)
      (opened : Opened dos (some h) w0 w1) (saved : Duplicated dos std (some s) w1 w2) where
    std_h : std ≢ h
    std_h = λ e. was_open (ap (dos.handle w0) e ∙ opened.0)

    std_w1 : dos.handle w1 std ≡ dos.handle w0 std
    std_w1 = opened.2 std std_h

    std_s : std ≢ s
    std_s = λ e. was_open (sym std_w1 ∙ ap (dos.handle w1) e ∙ saved.0)

    h_s : h ≢ s
    h_s = λ e. opened.1 (ap (dos.handle w1) e ∙ saved.0)

    abbrev pub forced : W
    forced = (dos.dos_force_dup h std w2).1

    forced_others : (j : ℕ) → j ≢ std → dos.handle forced j ≡ dos.handle w2 j
    forced_others j n =
        let f : (j == std) ≡ false = ground arith in
        laws.forces h std w2 j ∙ elim (Bool-cases (dos.dos_force_dup h std w2).0) [
          | inl e ↦
              ap (λ b. if b && j == std then dos.handle w2 h else dos.handle w2 j) e
              ∙ ap (λ b. if b then dos.handle w2 h else dos.handle w2 j) f
          | inr e ↦ ap (λ b. if b && j == std then dos.handle w2 h else dos.handle w2 j) e
        ]

    pub forced_other :
        (k : ℕ) → k ≢ std → dos.handle w0 k ≢ none → dos.handle forced k ≡ dos.handle w0 k
    forced_other k n k_open =
        let k_h : k ≢ h = λ e. k_open (ap (dos.handle w0) e ∙ opened.0) in
        let k_s : k ≢ s = λ e. k_open (sym (opened.2 k k_h) ∙ ap (dos.handle w1) e ∙ saved.0) in
        forced_others k n ∙ saved.2 k k_s ∙ opened.2 k k_h

    pointwise :
        (w' : W)
        → Same dos forced w'
        → dos.handle w' s ≡ dos.handle w0 std
        → (back : W)
        → ((j : ℕ) → dos.handle back j ≡ (if j == std then dos.handle w' s else dos.handle w' j))
        → (j : ℕ)
        → (if j == h then none else (if j == s then none else dos.handle back j)) ≡ dos.handle w0 j
    pointwise w' same at_s back at_back j = elim (Bool-cases (j == h)) [
      | inl e ↦ rw e (sym opened.0 ∙ ap (dos.handle w0) (sym (==→≡ j h e)))
      | inr j_h ↦ elim (Bool-cases (j == s)) [
        | inl e ↦
            rw (j_h, e)
              (sym saved.0 ∙ opened.2 s (λ x. h_s (sym x)) ∙ ap (dos.handle w0) (sym (==→≡ j s e)))
        | inr j_s ↦ elim (Bool-cases (j == std)) [
          | inl e ↦
              rw (j_h, j_s)
                (at_back j
                  ∙ ap (λ b. if b then dos.handle w' s else dos.handle w' j) e
                  ∙ at_s
                  ∙ ap (dos.handle w0) (sym (==→≡ j std e)))
          | inr e ↦
              rw (j_h, j_s)
                (at_back j
                  ∙ ap (λ b. if b then dos.handle w' s else dos.handle w' j) e
                  ∙ same j
                  ∙ forced_others j (==→≢ j std e)
                  ∙ saved.2 j (==→≢ j s j_s)
                  ∙ opened.2 j (==→≢ j h j_h))
        ]
      ]
    ]

    pub held : Held dos w0 forced std (some h) (some s)
    held w' same =
        let at_s : dos.handle w' s ≡ dos.handle w0 std =
          same s ∙ forced_others s (λ e. std_s (sym e)) ∙ saved.1 ∙ std_w1 in
        let back = (dos.dos_force_dup s std w').1 in
        let success : (dos.dos_force_dup s std w').0 ≡ true =
          laws.forces_open s std w' (λ e. was_open (sym at_s ∙ e)) in
        let at_back : (j : ℕ)
            → dos.handle back j ≡ (if j == std then dos.handle w' s else dos.handle w' j) =
          λ j.
            laws.forces s std w' j
            ∙ ap (λ b. if b && j == std then dos.handle w' s else dos.handle w' j) success in
        let at_end : (j : ℕ)
            → dos.handle (dos.dos_close h (dos.dos_close s back)) j
              ≡ (if j == h then none else (if j == s then none else dos.handle back j)) =
          λ j.
            laws.closes h (dos.dos_close s back) j
            ∙ ap (λ x. if j == h then none else x) (laws.closes s back j) in
        λ j. at_end j ∙ pointwise w' same at_s back at_back j
