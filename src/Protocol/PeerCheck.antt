-- ===== src/Protocol/PeerCheck.antt =====
-- crates/hataori-runtime-foundation/src/protocol.rs: what two peers conclude of each other's hello.
use Prim.Native.Nat.{bit_and, bit_and-bitwise, digits}
use hataori_rs.Prelude.{
  ℕ, zero, suc, ◌/◌, min, ◌≤◌, ◌≡◌, refl, sym, ◌∙◌, ◌↔◌, List, ok, err, arith, [], ◌∷◌, ◌⊎◌, eqb,
  inl, inr, Result-cases,
}
use hataori_rs.Prelude.Bytes.{same_bytes, same_bytes_iff}
use hataori_rs.Protocol.Ids.{ProtocolError}
use hataori_rs.Protocol.Limits.{
  ProtocolLimits, validate_limits, negotiate, smaller, IsValid, smaller_comm, negotiate-smaller,
  validate_limits-IsValid,
}
use hataori_rs.Protocol.Hello.{Hello, NegotiatedHello, validate_peer}

abbrev nought : ℕ → ℕ
nought b = 0

digits-zero : (n a : ℕ) → digits nought min n a 0 ≡ 0
digits-zero zero a = refl
digits-zero (suc n) zero = refl
digits-zero (suc n) (suc a) = omega (arith, digits-zero n (suc a / 2))

digits_comm : (n m a b : ℕ) → a ≤ n → b ≤ m → digits nought min n a b ≡ digits nought min m b a
digits_comm zero m zero b h k = sym (digits-zero m b)
digits_comm zero m (suc a) b h k = elim h [ ]
digits_comm (suc n) m zero b h k = sym (digits-zero m b)
digits_comm (suc n) zero (suc a) zero h k = digits-zero (suc n) (suc a)
digits_comm (suc n) zero (suc a) (suc b) h k = elim k [ ]
digits_comm (suc n) (suc m) (suc a) zero h k = digits-zero (suc n) (suc a)
digits_comm (suc n) (suc m) (suc a) (suc b) h k =
    omega (arith, digits_comm n m (suc a / 2) (suc b / 2) (omega arith) (omega arith))

bit_and_comm : (a b : ℕ) → bit_and a b ≡ bit_and b a
bit_and_comm a b =
    (λ i. bit_and-bitwise a b i)
    ∙ digits_comm a b a b (omega arith) (omega arith)
    ∙ sym (λ i. bit_and-bitwise b a i)

eqb_comm : (a b : ℕ) → eqb a b ≡ eqb b a
eqb_comm a b = ground arith

same_bytes_comm : (as_ bs : List ℕ) → same_bytes as_ bs ≡ same_bytes bs as_
same_bytes_comm [] [] = refl
same_bytes_comm [] (b ∷ bs) = refl
same_bytes_comm (a ∷ as_) [] = refl
same_bytes_comm (a ∷ as_) (b ∷ bs) = rw (eqb_comm a b, same_bytes_comm as_ bs) refl

validity :
    (l : ProtocolLimits)
    → (validate_limits l ≡ ok l) ⊎ (validate_limits l ≡ err ProtocolError.invalid_limits)
unfolding validate_limits
validity l = ground arith

negotiate_comm : (own peer : ProtocolLimits) → negotiate own peer ≡ negotiate peer own
unfolding negotiate
negotiate_comm own peer = elim (validity own) [
  | inl v ↦ elim (validity peer) [
    | inl w ↦ rw (v, w, smaller_comm own peer) refl
    | inr w ↦ rw (v, w) refl
  ]
  | inr v ↦ elim (validity peer) [ inl w ↦ rw (v, w) refl | inr w ↦ rw (v, w) refl ]
]

-- Two peers always conclude the same of each other's hello: both accept, with the same capabilities
-- and limits, or both refuse, for the same reason.
pub validate_peer_comm : (own peer : Hello) → validate_peer own peer ≡ validate_peer peer own
unfolding validate_peer
validate_peer_comm own peer =
    rw
      (
        eqb_comm own.run_id peer.run_id,
        eqb_comm own.runtime_version.major peer.runtime_version.major,
        eqb_comm own.runtime_version.minor peer.runtime_version.minor,
        eqb_comm own.runtime_version.patch peer.runtime_version.patch,
        same_bytes_comm own.action_registry_hash peer.action_registry_hash,
        same_bytes_comm own.object_registry_hash peer.object_registry_hash,
        negotiate_comm own.limits peer.limits,
        bit_and_comm own.capabilities peer.capabilities,
      )
      refl

-- When one peer accepts the other: same run, version and registries, and valid limits on both
-- sides. The capabilities are those of both, and the limits the smaller of each.
pub record Accepts (own peer : Hello) (n : NegotiatedHello) : Type 0 where
  pub run : own.run_id ≡ peer.run_id
  pub version : own.runtime_version ≡ peer.runtime_version
  pub actions : own.action_registry_hash ≡ peer.action_registry_hash
  pub objects : own.object_registry_hash ≡ peer.object_registry_hash
  pub own_limits : IsValid own.limits
  pub peer_limits : IsValid peer.limits
  pub capabilities : n.capabilities ≡ bit_and own.capabilities peer.capabilities
  pub limits : n.limits ≡ smaller own.limits peer.limits

chosen :
    (own peer m : ProtocolLimits)
    → IsValid own
    → IsValid peer
    → negotiate own peer ≡ ok m
    → m ≡ smaller own peer
chosen own peer m v w e = ground (arith, negotiate-smaller own peer v w)

negotiate_ok :
    (own peer m : ProtocolLimits)
    → negotiate own peer ≡ ok m
    → IsValid own × IsValid peer × (m ≡ smaller own peer)
unfolding negotiate
negotiate_ok own peer m e = elim (validity own) [
  | inl v ↦ elim (validity peer) [
    | inl w ↦
        let p = validate_limits-IsValid own own v in
        let q = validate_limits-IsValid peer peer w in (p, q, chosen own peer m p q e)
    | inr w ↦ absurd (ground arith)
  ]
  | inr v ↦ absurd (ground arith)
]

-- A peer's hello is accepted, with a given outcome, exactly when the run, the version and both
-- registry hashes are the same, the limits of both sides are valid, and the outcome has the
-- capabilities of both and the smaller of each limit.
pub validate_peer_iff :
    (own peer : Hello) (n : NegotiatedHello) → (validate_peer own peer ≡ ok n) ↔ Accepts own peer n
unfolding validate_peer
validate_peer_iff own peer n = (
  λ e. elim (Result-cases (negotiate own.limits peer.limits)) [
    | inl (m, agreed) ↦
        let (v, w, same) = negotiate_ok own.limits peer.limits m agreed in
        record {
          run = ground arith;
          version = ground arith;
          actions =
              ground (arith, same_bytes_iff own.action_registry_hash peer.action_registry_hash);
          objects =
              ground (arith, same_bytes_iff own.object_registry_hash peer.object_registry_hash);
          own_limits = v;
          peer_limits = w;
          capabilities = ground arith;
          limits = ground arith;
        }
    | inr (inl (x, bad)) ↦ absurd (ground arith)
    | inr (inr bad) ↦ absurd (ground arith)
  ],
  λ a.
      let same_actions =
        (same_bytes_iff own.action_registry_hash peer.action_registry_hash).1 a.actions in
      let same_objects =
        (same_bytes_iff own.object_registry_hash peer.object_registry_hash).1 a.objects in
      let agreed = negotiate-smaller own.limits peer.limits a.own_limits a.peer_limits in
      rw (same_actions, same_objects, agreed)
        (ground (arith, a.run, a.version, a.capabilities, a.limits)),
)
