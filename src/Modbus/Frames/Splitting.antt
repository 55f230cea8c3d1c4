-- ===== src/Modbus/Frames/Splitting.antt =====
-- The whole loop: it ends, what it yields, and how it treats a stream that comes in pieces.
use zhiwei_backend.Prelude.{
  ℕ, zero, suc, ◌+◌, ◌≤◌, ◌<◌, ◌≡◌, ◌⊎◌, inl, inr, refl, ap, ◌∙◌, List, [], ◌∷◌, ◌++◌, arith,
  length, length-append, append-nil, append_assoc,
}
use zhiwei_backend.Modbus.Frames.{Bytes, Cut, stop, resync, accept, cut, split_loop}
use zhiwei_backend.Modbus.Frames.Rounds.{feed, cut-append, cut-Shrinks}

pub Cut-cases :
    (c : Cut)
    → (c ≡ stop) ⊎ (((r : Bytes) × (c ≡ resync r)) ⊎ ((f : Bytes) × (r : Bytes) × (c ≡ accept f r)))
Cut-cases stop = inl refl
Cut-cases (resync r) = inr (inl (r, refl))
Cut-cases (accept f r) = inr (inr (f, r, refl))

pub cut_nil : cut [] ≡ stop
unfolding cut
cut_nil = refl

-- Each round but the last leaves fewer bytes.
pub resync_shrinks : (rest : Bytes) {r : Bytes} → cut rest ≡ resync r → length r < length rest
resync_shrinks rest e = rw e at (cut-Shrinks rest)

pub accept_shrinks : (rest : Bytes) {f r : Bytes} → cut rest ≡ accept f r → length r < length rest
accept_shrinks rest e = rw e at (cut-Shrinks rest)

-- With as many rounds as bytes the loop ends by its own test.
pub split_loop-settles :
    (n : ℕ) (frames : List Bytes) (rest : Bytes)
    → length rest ≤ n
    → cut (split_loop n frames rest).1 ≡ stop
unfolding split_loop
split_loop-settles zero frames [] h = cut_nil
split_loop-settles zero frames (b ∷ rest) h = absurd (omega arith)
split_loop-settles (suc n) frames rest h = elim (Cut-cases (cut rest)) [
  | inl e ↦ rw (e, split_loop) e
  | inr (inl (r, e)) ↦
      rw (e, split_loop) (split_loop-settles n frames r (omega (arith, resync_shrinks rest e)))
  | inr (inr (f, r, e)) ↦
      rw (e, split_loop)
        (split_loop-settles n (frames ++ f ∷ []) r (omega (arith, accept_shrinks rest e)))
]

-- Rounds beyond the number of bytes make no difference.
pub split_loop-fuel :
    (n m : ℕ) (frames : List Bytes) (rest : Bytes)
    → length rest ≤ n
    → length rest ≤ m
    → split_loop n frames rest ≡ split_loop m frames rest
unfolding split_loop
split_loop-fuel zero zero frames rest h k = refl
split_loop-fuel zero (suc m) frames [] h k = rw (cut_nil, split_loop)
split_loop-fuel zero (suc m) frames (b ∷ rest) h k = absurd (omega arith)
split_loop-fuel (suc n) zero frames [] h k = rw (cut_nil, split_loop)
split_loop-fuel (suc n) zero frames (b ∷ rest) h k = absurd (omega arith)
split_loop-fuel (suc n) (suc m) frames rest h k = elim (Cut-cases (cut rest)) [
  | inl e ↦ rw (e, split_loop)
  | inr (inl (r, e)) ↦
      rw (e, split_loop)
        (split_loop-fuel n m frames r (omega (arith, resync_shrinks rest e))
          (omega (arith, resync_shrinks rest e)))
  | inr (inr (f, r, e)) ↦
      rw (e, split_loop)
        (split_loop-fuel n m (frames ++ f ∷ []) r (omega (arith, accept_shrinks rest e))
          (omega (arith, accept_shrinks rest e)))
]

-- What was found before comes first.
pub split_loop-frames :
    (n : ℕ) (frames : List Bytes) (rest : Bytes)
    → split_loop n frames rest ≡ (frames ++ (split_loop n [] rest).0, (split_loop n [] rest).1)
unfolding split_loop
split_loop-frames zero frames rest = simp append-nil
split_loop-frames (suc n) frames rest = elim (Cut-cases (cut rest)) [
  | inl e ↦ rw (e, split_loop) (simp append-nil)
  | inr (inl (r, e)) ↦ rw (e, split_loop) (split_loop-frames n frames r)
  | inr (inr (f, r, e)) ↦
      rw (e, split_loop)
        (split_loop-frames n (frames ++ f ∷ []) r
          ∙ cc (append_assoc frames (f ∷ []) (split_loop n [] r).0, split_loop-frames n (f ∷ []) r))
]

-- One round of a loop that has rounds enough.
pub split_loop_stop :
    (n : ℕ) (frames : List Bytes) (rest : Bytes)
    → cut rest ≡ stop
    → split_loop n frames rest ≡ (frames, rest)
unfolding split_loop
split_loop_stop zero frames rest e = refl
split_loop_stop (suc n) frames rest e = rw (e, split_loop)

pub split_loop_resync :
    (n : ℕ) (frames : List Bytes) (rest : Bytes) {r : Bytes}
    → length rest ≤ n
    → cut rest ≡ resync r
    → split_loop n frames rest ≡ split_loop n frames r
unfolding split_loop
split_loop_resync zero frames [] h e = cc cut_nil
split_loop_resync zero frames (b ∷ rest) h e = absurd (omega arith)
split_loop_resync (suc n) frames rest {r} h e =
    let s = resync_shrinks rest e in
    rw (e, split_loop) (split_loop-fuel n (suc n) frames r (omega arith) (omega arith))

pub split_loop-accept :
    (n : ℕ) (frames : List Bytes) (rest : Bytes) {f r : Bytes}
    → length rest ≤ n
    → cut rest ≡ accept f r
    → split_loop n frames rest ≡ split_loop n (frames ++ f ∷ []) r
unfolding split_loop
split_loop-accept zero frames [] h e = cc cut_nil
split_loop-accept zero frames (b ∷ rest) h e = absurd (omega arith)
split_loop-accept (suc n) frames rest {f} {r} h e =
    let s = accept_shrinks rest e in
    rw (e, split_loop) (split_loop-fuel n (suc n) (frames ++ f ∷ []) r (omega arith) (omega arith))

cut-append_resync :
    (rest more : Bytes) {r : Bytes} → cut rest ≡ resync r → cut (rest ++ more) ≡ resync (r ++ more)
cut-append_resync rest more e = cut-append rest more (λ s. cc) ∙ ap (feed more) e

cut-append_accept :
    (rest more : Bytes) {f r : Bytes}
    → cut rest ≡ accept f r
    → cut (rest ++ more) ≡ accept f (r ++ more)
cut-append_accept rest more e = cut-append rest more (λ s. cc) ∙ ap (feed more) e

-- The loop over a stream of which `more` comes later.
pub split_loop-append :
    (n : ℕ) (frames : List Bytes) (rest more : Bytes)
    → length rest ≤ n
    → (m : ℕ) → length rest + length more ≤ m
    → split_loop m frames (rest ++ more)
      ≡ (let (fs, r) = split_loop n frames rest in split_loop m fs (r ++ more))
unfolding split_loop
split_loop-append zero frames [] more h m k = refl
split_loop-append zero frames (b ∷ rest) more h m k = absurd (omega arith)
split_loop-append (suc n) frames rest more h m k =
    let l = length-append rest more in
    elim (Cut-cases (cut rest)) [
      | inl e ↦ rw (split_loop_stop (suc n) frames rest e)
      | inr (inl (r, e)) ↦
          let s = resync_shrinks rest e in
          rw (e, split_loop)
            (split_loop_resync m frames (rest ++ more) (omega arith) (cut-append_resync rest more e)
              ∙ split_loop-append n frames r more (omega arith) m (omega arith))
      | inr (inr (f, r, e)) ↦
          let s = accept_shrinks rest e in
          rw (e, split_loop)
            (split_loop-accept m frames (rest ++ more) (omega arith) (cut-append_accept rest more e)
              ∙ split_loop-append n (frames ++ f ∷ []) r more (omega arith) m (omega arith))
    ]

-- The remainder is no longer than the buffer.
pub split_loop-length :
    (n : ℕ) (frames : List Bytes) (rest : Bytes) → length (split_loop n frames rest).1 ≤ length rest
unfolding split_loop
split_loop-length zero frames rest = omega arith
split_loop-length (suc n) frames rest = elim (Cut-cases (cut rest)) [
  | inl e ↦ rw (e, split_loop) (omega arith)
  | inr (inl (r, e)) ↦
      rw (e, split_loop) (omega (arith, resync_shrinks rest e, split_loop-length n frames r))
  | inr (inr (f, r, e)) ↦
      rw (e, split_loop)
        (omega (arith, accept_shrinks rest e, split_loop-length n (frames ++ f ∷ []) r))
]
