-- ===== src/Network/Messages/Codec/Writes.antt =====
-- When an encoder writes a given string of bytes: it appends the bytes if they fit, and returns an
-- error if they do not.
use openscreen_rs.Base.{
  fits_or_not, ℕ, ◌+◌, ◌^◌, ◌≤◌, ◌<◌, ◌≡◌, inl, inr, List, [], ◌∷◌, ◌++◌, arith, length,
  length-append, append-nil, append_assoc, take-length-append, flatten, Outcome, ok, err, panic,
  Action, pure, ◌>>=◌, ◌>>◌, ap, ◌∙◌, continue, lt→ltb, le→ltb, map_err,
}
use openscreen_rs.Deps.{Deps, Laws}
use openscreen_rs.Common.{MessageError}
use openscreen_rs.Common.TypeKey.{encode_type_key}
use openscreen_rs.Network.Messages.Codec.{write_all, write_pieces, emit}

abbrev pub IsErr : {E A : Type 0} → Outcome E A → Type 0
IsErr (ok a) = ⊥
IsErr (err e) = Unit {0}
IsErr panic = ⊥

pub record Writes (n : ℕ) (m : Action (List ℕ) MessageError (Unit {0})) (bytes : List ℕ)
    : Type 0 where
  pub fits : (buf : List ℕ) → length buf + length bytes ≤ n → m buf ≡ (ok tt, buf ++ bytes)
  pub full : (buf : List ℕ) → length buf ≤ n → n < length buf + length bytes → IsErr (m buf).0

module _ (n : ℕ) where
  pub Writes-pure : Writes n (pure tt) []
  unfolding pure
  Writes-pure = record { fits = λ buf h. rw append-nil; full = λ buf h k. absurd (omega arith) }

  IsErr-then :
      (r : Outcome MessageError (Unit {0})) (k : Action (List ℕ) MessageError (Unit {0}))
      (buf : List ℕ)
      → IsErr r
      → IsErr (continue r (λ _. k) buf).0
  IsErr-then (ok a) k buf h = absurd h
  IsErr-then (err e) k buf h = h
  IsErr-then panic k buf h = h

  pub Writes-then :
      {m k : Action (List ℕ) MessageError (Unit {0})} {xs ys : List ℕ}
      → Writes n m xs
      → Writes n k ys
      → Writes n (m >> k) (xs ++ ys)
  unfolding ◌>>=◌
  Writes-then {m} {k} {xs} {ys} wm wk = record {
    fits = λ buf h. rw (wm.fits buf (omega (arith, length-append xs ys))) (
        wk.fits (buf ++ xs) (omega (arith, length-append xs ys, length-append buf xs))
        ∙ ap (λ b. (ok tt, b)) (append_assoc buf xs ys));
    full = λ buf h over. elim (fits_or_not (length buf + length xs) n) [
      | inl room ↦ rw (wm.fits buf room) (
          wk.full (buf ++ xs) (omega (arith, length-append buf xs))
            (omega (arith, length-append buf xs, length-append xs ys)))
      | inr none ↦ IsErr-then (m buf).0 k (m buf).1 (wm.full buf h none)
    ];
  }

module _ (d : Deps) (laws : Laws d) (n : ℕ) where
  write_all-Writes : (bytes : List ℕ) → Writes n (write_all d n bytes) bytes
  unfolding write_all
  write_all-Writes bytes = record {
    fits = λ buf h. rw (laws.heapless.extend_fits n buf bytes h);
    full = λ buf h over. rw (laws.heapless.extend_full n buf bytes over) tt;
  }

  write_pieces-Writes :
      (pieces : List (List ℕ)) → Writes n (write_pieces d n pieces) (flatten pieces)
  unfolding write_pieces flatten
  write_pieces-Writes [] = Writes-pure n
  write_pieces-Writes (piece ∷ pieces) =
      Writes-then n (write_all-Writes piece) (write_pieces-Writes pieces)

  map_err-IsErr :
      (e : MessageError) (r : Outcome MessageError (Unit {0}))
      → IsErr r
      → IsErr (map_err {A = Unit {0}} e r)
  map_err-IsErr e (ok a) h = h
  map_err-IsErr e (err x) h = tt
  map_err-IsErr e panic h = h

  pub emit-Writes : (pieces : List (List ℕ)) → Writes n (emit d n pieces) (flatten pieces)
  unfolding emit
  emit-Writes pieces = record {
    fits = λ buf h. rw ((write_pieces-Writes pieces).fits buf h);
    full = λ buf h over. map_err-IsErr _ _ ((write_pieces-Writes pieces).full buf h over);
  }

  -- A type key that is not written is refused before anything is written.
  pub type_key-Writes :
      (key : ℕ) → key < 2 ^ 16 → Writes n (encode_type_key d n key) (d.varint.encode key)
  unfolding encode_type_key
  type_key-Writes key small = record {
    fits = λ buf h.
        rw (← size, take-length-append encoded _, le→ltb _ _ h, le→ltb 4 (length encoded) short)
          (rw (laws.heapless.extend_fits n buf encoded h));
    full = λ buf h over. rw (← size, lt→ltb _ _ over) tt;
  }
    where
      encoded : List ℕ
      encoded = d.varint.encode key

      size : length (d.varint.encode key) ≡ d.varint.size key
      size = laws.varint.encode_size key (omega arith)

      short : length (d.varint.encode key) ≤ 4
      short = omega (arith, size, laws.varint.size_bound key (omega arith))
