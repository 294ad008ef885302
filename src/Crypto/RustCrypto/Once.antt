-- ===== src/Crypto/RustCrypto/Once.antt =====
-- The stored state of the exchange serves one finish.
use openscreen_rs.Base.{
  ℕ, ◌≡◌, refl, Bool, true, false, Option, none, some, List, [], ◌∷◌, ◌||◌, err, Action, ◌>>=◌,
}
use openscreen_rs.Base.Keeps.{Keeps, keeps_rules}
use openscreen_rs.Deps.{Deps}
use openscreen_rs.Crypto.{CryptoError, CryptoResult, CryptoRequest, CryptoOpKind, Spake2Operation}
use openscreen_rs.Crypto.RustCrypto.{
  CryptoCrates, RustCryptoCryptoProvider, take_state, execute_finish,
  execute_finish_with_confirmation, execute_spake2, execute_kind, rust_crypto,
}
use openscreen_rs.Crypto.RustCrypto.Spent.{
  IsSpent, given-Keeps, answer_with-Keeps, hash-Keeps, hmac-Keeps, hkdf-Keeps, verify-Keeps,
  finish-Keeps, confirm-Keeps,
}

abbrev pub is_start : CryptoOpKind → Bool
is_start (CryptoOpKind.spake2 (Spake2Operation.start id password role)) = true
is_start _ = false

abbrev pub is_finish : CryptoOpKind → Bool
is_finish (CryptoOpKind.spake2 (Spake2Operation.finish state peer)) = true
is_finish
      (CryptoOpKind.spake2
        (Spake2Operation.finish_with_confirmation state peer transcript my_fp peer_fp role)) =
    true
is_finish _ = false

abbrev pub has_start : List (List ℕ × CryptoRequest) → Bool
has_start [] = false
has_start ((e, request) ∷ requests) = is_start request.kind || has_start requests

neither : (a b : Bool) → (a || b) ≡ false → (a ≡ false) × (b ≡ false)
neither false b h = (refl, h)
neither true b h = cc

module _ (d : Deps) {K : Type 0} (c : CryptoCrates K) where
  spends :
      (f : K → Action (RustCryptoCryptoProvider K) CryptoError CryptoResult)
      → ((k : K) → Keeps IsSpent (f k))
      → (s : RustCryptoCryptoProvider K) → IsSpent ((take_state d c >>= f) s).1
  unfolding take_state ◌>>=◌
  spends f keeps s = by_state s.spake2_state
    where
      by_state :
          (stored : Option K)
          → IsSpent ((take_state d c >>= f) (record { spake2_state = stored })).1
      by_state none = refl
      by_state (some k) = (keeps k).at (record { spake2_state = none }) refl

  finish-IsSpent :
      (op_id : ℕ) (peer : List ℕ) (s : RustCryptoCryptoProvider K)
      → IsSpent (execute_finish d c op_id peer s).1
  unfolding execute_finish
  finish-IsSpent op_id peer s =
      spends _ (λ k. search (keeps_rules, given-Keeps, answer_with-Keeps)) s

  confirm-IsSpent :
      (op_id : ℕ) (peer transcript my_fp peer_fp : List ℕ) (role : Bool)
      (s : RustCryptoCryptoProvider K)
      → IsSpent (execute_finish_with_confirmation d c op_id peer transcript my_fp peer_fp role s).1
  unfolding execute_finish_with_confirmation
  confirm-IsSpent op_id peer transcript my_fp peer_fp role s =
      spends _ (λ k. search (keeps_rules, given-Keeps, answer_with-Keeps) depth 16) s

  execute-IsSpent :
      (e : List ℕ) (request : CryptoRequest) (s : RustCryptoCryptoProvider K)
      → is_finish request.kind ≡ true
      → IsSpent ((rust_crypto d c e).execute request s).1
  unfolding execute_kind execute_spake2
  execute-IsSpent e request s h = by_kind request.kind h
    where
      by_kind :
          (kind : CryptoOpKind)
          → is_finish kind ≡ true
          → IsSpent (execute_kind d c e request.op_id kind s).1
      by_kind (CryptoOpKind.spake2 (Spake2Operation.finish state peer)) h =
          finish-IsSpent request.op_id peer s
      by_kind
            (CryptoOpKind.spake2
              (Spake2Operation.finish_with_confirmation state peer transcript my_fp peer_fp role))
            h =
          confirm-IsSpent request.op_id peer transcript my_fp peer_fp role s
      by_kind (CryptoOpKind.spake2 (Spake2Operation.start id password role)) h = cc
      by_kind (CryptoOpKind.spake2 (Spake2Operation.verify_confirmation context mac)) h = cc
      by_kind (CryptoOpKind.certificate op) h = cc
      by_kind (CryptoOpKind.hash op) h = cc
      by_kind (CryptoOpKind.hmac op) h = cc
      by_kind (CryptoOpKind.hkdf op) h = cc
      by_kind (CryptoOpKind.ecdsa op) h = cc

  execute-Keeps :
      (e : List ℕ) (request : CryptoRequest)
      → is_start request.kind ≡ false
      → Keeps IsSpent ((rust_crypto d c e).execute request)
  unfolding execute_kind execute_spake2
  execute-Keeps e request h = by_kind request.op_id request.kind h
    where
      by_kind :
          (op_id : ℕ) (kind : CryptoOpKind)
          → is_start kind ≡ false
          → Keeps IsSpent (execute_kind d c e op_id kind)
      by_kind op_id (CryptoOpKind.spake2 (Spake2Operation.start id password role)) h = cc
      by_kind op_id (CryptoOpKind.spake2 (Spake2Operation.finish state peer)) h =
          finish-Keeps d c op_id peer
      by_kind op_id
            (CryptoOpKind.spake2
              (Spake2Operation.finish_with_confirmation state peer transcript my_fp peer_fp role))
            h =
          confirm-Keeps d c op_id peer transcript my_fp peer_fp role
      by_kind op_id (CryptoOpKind.spake2 (Spake2Operation.verify_confirmation context mac)) h =
          verify-Keeps d c op_id context mac
      by_kind op_id (CryptoOpKind.certificate op) h = search keeps_rules
      by_kind op_id (CryptoOpKind.hash op) h = hash-Keeps d c op_id op.input op.algorithm
      by_kind op_id (CryptoOpKind.hmac op) h = hmac-Keeps d c op_id op.algorithm op.key op.input
      by_kind op_id (CryptoOpKind.hkdf op) h = hkdf-Keeps d c op_id op
      by_kind op_id (CryptoOpKind.ecdsa op) h = search keeps_rules

  execute-spent :
      (e : List ℕ) (request : CryptoRequest) (s : RustCryptoCryptoProvider K)
      → IsSpent s
      → is_finish request.kind ≡ true
      → ((rust_crypto d c e).execute request s).0 ≡ err CryptoError.invalid_input
  unfolding execute_kind execute_spake2 execute_finish execute_finish_with_confirmation take_state
      ◌>>=◌
  execute-spent e request s spent h = by_kind request.op_id request.kind h
    where
      by_kind :
          (op_id : ℕ) (kind : CryptoOpKind)
          → is_finish kind ≡ true
          → (execute_kind d c e op_id kind s).0 ≡ err CryptoError.invalid_input
      by_kind op_id (CryptoOpKind.spake2 (Spake2Operation.start id password role)) h = cc
      by_kind op_id (CryptoOpKind.spake2 (Spake2Operation.finish state peer)) h = rw spent refl
      by_kind op_id
            (CryptoOpKind.spake2
              (Spake2Operation.finish_with_confirmation state peer transcript my_fp peer_fp role))
            h =
          rw spent refl
      by_kind op_id (CryptoOpKind.spake2 (Spake2Operation.verify_confirmation context mac)) h = cc
      by_kind op_id (CryptoOpKind.certificate op) h = cc
      by_kind op_id (CryptoOpKind.hash op) h = cc
      by_kind op_id (CryptoOpKind.hmac op) h = cc
      by_kind op_id (CryptoOpKind.hkdf op) h = cc
      by_kind op_id (CryptoOpKind.ecdsa op) h = cc

  -- The provider after requests, each with the entropy of its call.
  abbrev pub after_requests :
      List (List ℕ × CryptoRequest) → RustCryptoCryptoProvider K → RustCryptoCryptoProvider K
  after_requests [] s = s
  after_requests ((e, request) ∷ requests) s =
      after_requests requests ((rust_crypto d c e).execute request s).1

  after_requests-IsSpent :
      (requests : List (List ℕ × CryptoRequest)) (s : RustCryptoCryptoProvider K)
      → has_start requests ≡ false
      → IsSpent s
      → IsSpent (after_requests requests s)
  after_requests-IsSpent [] s h spent = spent
  after_requests-IsSpent ((e, request) ∷ requests) s h spent =
      let apart = neither (is_start request.kind) (has_start requests) h in
      after_requests-IsSpent requests ((rust_crypto d c e).execute request s).1 apart.1
        ((execute-Keeps e request apart.0).at s spent)

  -- After a Finish or a FinishWithConfirmation, whatever became of it, and any requests but a Start,
  -- the next Finish or FinishWithConfirmation is answered with InvalidInput.
  pub state_serves_once :
      (e e' : List ℕ) (first last : CryptoRequest) (between : List (List ℕ × CryptoRequest))
      (s : RustCryptoCryptoProvider K)
      → is_finish first.kind ≡ true
      → has_start between ≡ false
      → is_finish last.kind ≡ true
      → ((rust_crypto d c e').execute last
          (after_requests between ((rust_crypto d c e).execute first s).1)).0
        ≡ err CryptoError.invalid_input
  state_serves_once e e' first last between s finishes no_start finishes_again =
      execute-spent e' last (after_requests between ((rust_crypto d c e).execute first s).1)
        (after_requests-IsSpent between ((rust_crypto d c e).execute first s).1 no_start
          (execute-IsSpent e first s finishes))
        finishes_again
