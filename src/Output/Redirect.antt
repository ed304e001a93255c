-- ===== src/Output/Redirect.antt =====
-- What the standard streams are after `RedirectStdIO`.
use batterysystem.Common.{
  ℕ, ◌+◌, ◌<◌, ◌≡◌, ◌≢◌, refl, sym, ap, ◌∙◌, List, Option, none, some, true, false, arith, ◌==◌,
  ==_iff, Bool-cases, inl, inr,
}
use batterysystem.Common.Int.{pos, ltb_ℤ}
use batterysystem.Common.Text.{codes}
use batterysystem.Output.{
  System, Mode, reading, appending, redirected, redirect, then_redirect, redirect_std_io,
}

-- open, dup2 and close where they succeed, for a view of which file a descriptor stands for: open takes a
-- free descriptor.
pub record IsDescriptors (S : System) (file_of : ℕ → S.World → Option (List ℕ)) : Type 0 where
  pub open-free :
      (path : List ℕ) (mode : Mode) (w : S.World)
      → (fd : ℕ) × ((S.open_file path mode w).0 ≡ pos fd) × (file_of fd w ≡ none)
  pub open-file :
      (path : List ℕ) (mode : Mode) (w : S.World) (fd : ℕ)
      → (S.open_file path mode w).0 ≡ pos fd
      → file_of fd (S.open_file path mode w).1 ≡ some path
  pub open-others :
      (path : List ℕ) (mode : Mode) (w : S.World) (fd m : ℕ)
      → (S.open_file path mode w).0 ≡ pos fd
      → (m == fd) ≡ false
      → file_of m (S.open_file path mode w).1 ≡ file_of m w
  pub dup2-new : (old new : ℕ) (w : S.World) → (S.dup2 old new w).0 ≡ pos new
  pub dup2-file : (old new : ℕ) (w : S.World) → file_of new (S.dup2 old new w).1 ≡ file_of old w
  pub dup2-others :
      (old new m : ℕ) (w : S.World)
      → (m == new) ≡ false
      → file_of m (S.dup2 old new w).1 ≡ file_of m w
  pub close-file : (fd : ℕ) (w : S.World) → file_of fd (S.close fd w) ≡ none
  pub close-others :
      (fd m : ℕ) (w : S.World) → (m == fd) ≡ false → file_of m (S.close fd w) ≡ file_of m w

module _ (S : System) (file_of : ℕ → S.World → Option (List ℕ)) where
  open S use {World}

  -- A descriptor that stands for a file.
  abbrev pub IsUsed : ℕ → World → Type 0
  IsUsed n w = (path : List ℕ) × (file_of n w ≡ some path)

none-ne-some : {A : Type 0} {a : A} → none ≢ some a
none-ne-some e = cc

beyond : (m n : ℕ) → n < 3 → (3 + m == n) ≡ false
beyond m n h = ground arith

positive_of_ne : {n : ℕ} → (0 == n) ≡ false → 0 < n
positive_of_ne h = ground arith

module _ (S : System) (file_of : ℕ → S.World → Option (List ℕ)) (l : IsDescriptors S file_of) where
  open S use {World}

  redirect-opened :
      (path : List ℕ) (mode : Mode) (n : ℕ) (text : List ℕ) (w : World) (fd : ℕ)
      → (S.open_file path mode w).0 ≡ pos fd
      → 0 < fd
      → redirect S (some path) mode n text w
        ≡ (true, S.close fd (S.dup2 fd n (S.open_file path mode w).1).1)
  unfolding redirect redirected
  redirect-opened path mode n text w fd e h =
      let given : ltb_ℤ (pos 0) (pos fd) ≡ true = ground arith in
      let fine : ltb_ℤ (pos n) (pos 0) ≡ false = ground arith in
      rw (e, given, l.dup2-new fd n (S.open_file path mode w).1, fine)

  other_of_free :
      (n fd : ℕ) (w : World) → IsUsed S file_of n w → file_of fd w ≡ none → (n == fd) ≡ false
  other_of_free n fd w (path, used) free = elim (Bool-cases (n == fd)) [
    | inl same ↦
        let e : n ≡ fd = (==_iff n fd).0 same in
        let absurd : ⊥ = none-ne-some (sym free ∙ ap (λ k. file_of k w) (sym e) ∙ used) in
        elim absurd [ ]
    | inr other ↦ other
  ]

  -- What the three calls do to the descriptors, from which redirect-used follows.
  opened-file :
      (path : List ℕ) (mode : Mode) (n fd : ℕ) (w : World)
      → (S.open_file path mode w).0 ≡ pos fd
      → (n == fd) ≡ false
      → file_of n (S.close fd (S.dup2 fd n (S.open_file path mode w).1).1) ≡ some path
  opened-file path mode n fd w e other =
      let w1 = (S.open_file path mode w).1 in
      l.close-others fd n (S.dup2 fd n w1).1 other
      ∙ l.dup2-file fd n w1
      ∙ l.open-file path mode w fd e

  opened-others :
      (path : List ℕ) (mode : Mode) (n fd m : ℕ) (w : World)
      → (S.open_file path mode w).0 ≡ pos fd
      → file_of fd w ≡ none
      → (m == n) ≡ false
      → file_of m (S.close fd (S.dup2 fd n (S.open_file path mode w).1).1) ≡ file_of m w
  opened-others path mode n fd m w e free apart =
      let w1 = (S.open_file path mode w).1 in
      let w2 = (S.dup2 fd n w1).1 in
      elim (Bool-cases (m == fd)) [
        | inl same ↦
            let m-fd : m ≡ fd = (==_iff m fd).0 same in
            ap (λ k. file_of k (S.close fd w2)) m-fd
            ∙ l.close-file fd w2
            ∙ sym free
            ∙ ap (λ k. file_of k w) (sym m-fd)
        | inr other ↦
            l.close-others fd m w2 other
            ∙ l.dup2-others fd n m w1 apart
            ∙ l.open-others path mode w fd m e other
      ]

  -- Where standard input is open, so that 0 is not a free descriptor, just the descriptor `n` changes.
  redirect-used :
      (path : List ℕ) (mode : Mode) (n : ℕ) (text : List ℕ) (w : World)
      → IsUsed S file_of 0 w
      → IsUsed S file_of n w
      → ((redirect S (some path) mode n text w).0 ≡ true)
        × (file_of n (redirect S (some path) mode n text w).1 ≡ some path)
        × ((m : ℕ)
            → (m == n) ≡ false
            → file_of m (redirect S (some path) mode n text w).1 ≡ file_of m w)
  redirect-used path mode n text w input used =
      let (fd, e, free) = l.open-free path mode w in
      let zero_used = other_of_free 0 fd w input free in
      let other = other_of_free n fd w used free in
      let opened =
        redirect-opened path mode n text w fd e (omega (arith, positive_of_ne zero_used)) in
      rw opened (
        refl,
        opened-file path mode n fd w e other,
        λ m apart. opened-others path mode n fd m w e free apart,
      )

  -- Where the three standard streams are open when the program starts and the calls of open, dup2 and
  -- close succeed, RedirectStdIO returns; descriptor 0 then stands for the first file, 1 for the second
  -- and 2 for the third, and every other descriptor is as it was: none is left open.
  pub redirect_std_io-Redirected :
      (in_file out_file err_file : List ℕ) (w : World)
      → IsUsed S file_of 0 w
      → IsUsed S file_of 1 w
      → IsUsed S file_of 2 w
      → let (ok, w') = redirect_std_io S (some in_file) (some out_file) (some err_file) w in
        (ok ≡ true)
        × (file_of 0 w' ≡ some in_file)
        × (file_of 1 w' ≡ some out_file)
        × (file_of 2 w' ≡ some err_file)
        × ((m : ℕ) → file_of (3 + m) w' ≡ file_of (3 + m) w)
  unfolding redirect_std_io then_redirect
  redirect_std_io-Redirected in_file out_file err_file w u0 u1 u2 =
      let t0 = codes "RedirectStdIO dup2 in" in
      let t1 = codes "RedirectStdIO dup2 out" in
      let t2 = codes "RedirectStdIO dup2 error" in
      let w0 = (redirect S (some in_file) reading 0 t0 w).1 in
      let (ok0, is0, same0) = redirect-used in_file reading 0 t0 w u0 u0 in
      let now1 = same0 1 refl ∙ u1.1 in
      let (ok1, is1, same1) =
        redirect-used out_file appending 1 t1 w0 (in_file, is0) (u1.0, now1) in
      let w1 = (redirect S (some out_file) appending 1 t1 w0).1 in
      let now2 = same1 2 refl ∙ same0 2 refl ∙ u2.1 in
      let (ok2, is2, same2) =
        redirect-used err_file appending 2 t2 w1 (in_file, same1 0 refl ∙ is0) (u2.0, now2) in
      rw (ok0, ok1)
        (
          ok2,
          same2 0 refl ∙ same1 0 refl ∙ is0,
          same2 1 refl ∙ is1,
          is2,
          λ m.
              same2 (3 + m) (beyond m 2 (omega arith))
              ∙ same1 (3 + m) (beyond m 1 (omega arith))
              ∙ same0 (3 + m) (beyond m 0 (omega arith)),
        )

  -- Where a standard stream `n` other than input is closed when the program starts, so that open gives
  -- its descriptor, the block for it returns, and leaves the stream closed: the `close(fd)` closes the
  -- stream itself.
  pub redirect-closed :
      (path : List ℕ) (mode : Mode) (n : ℕ) (text : List ℕ) (w : World)
      → (S.open_file path mode w).0 ≡ pos n
      → 0 < n
      → ((redirect S (some path) mode n text w).0 ≡ true)
        × (file_of n (redirect S (some path) mode n text w).1 ≡ none)
  redirect-closed path mode n text w e h =
      let w1 = (S.open_file path mode w).1 in
      rw (redirect-opened path mode n text w n e h) (refl, l.close-file n (S.dup2 n n w1).1)
