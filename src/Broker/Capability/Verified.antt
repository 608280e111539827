-- ===== src/Broker/Capability/Verified.antt =====
-- What the tokens of server/broker/capability.py stand for: a minted one for its claims, and an
-- accepted one for claims that were minted.
use Prim.Native.Char.{char}
use uumi.Prelude.{
  All, Bool-cases, List, Option, String, [], ap, arith, false, has_char, if◌then◌else◌, inl, inr,
  leb, nat_eq, none, refl, some, split, split-Lacks, split-join, split_whole, string_eq, subst, sym,
  true, ℕ, ◌<◌, ◌∙◌, ◌∷◌, ◌≡◌,
}
use uumi.Contracts.{Stage, stage_eq, stage_value}
use uumi.Errors.{
  >>=-eq-ok, capability_rejected, err, ok, ok-injective, reject_if-eq-ok, require-eq-ok,
}
use uumi.Broker.Capability.{
  CapabilityClaims, Codec, decoded, dot, dotted, header, is_header, mint, optional_text,
  optional_value, payload, read_claims, stage_of, verify, verify_parts,
}

-- The text that is signed for the claims.
abbrev pub signed_text : Codec → CapabilityClaims → String
signed_text codec c = dotted (codec.encode header) (codec.encode (payload c))

-- What the libraries do with the claims that are minted: a JSON text is read back as it was written,
-- base64 has no dot, and a signature verifies.
pub record KeepsTokens (codec : Codec) (IsMinted : CapabilityClaims → Type 0) : Type 0 where
  pub reads_header : codec.decode (codec.encode header) ≡ some header
  pub header_without_dot : has_char dot (codec.encode header) ≡ false
  pub reads_payload :
      (c : CapabilityClaims)
      → IsMinted c
      → codec.decode (codec.encode (payload c)) ≡ some (payload c)
  pub payload_without_dot :
      (c : CapabilityClaims) → IsMinted c → has_char dot (codec.encode (payload c)) ≡ false
  pub signature_without_dot :
      (c : CapabilityClaims) → IsMinted c → has_char dot (codec.sign (signed_text codec c)) ≡ false
  pub verifies :
      (c : CapabilityClaims)
      → IsMinted c
      → codec.check (codec.sign (signed_text codec c)) (signed_text codec c) ≡ true

-- No text but those of the minted claims has a signature that verifies.
abbrev pub Unforged : Codec → (CapabilityClaims → Type 0) → Type 0
Unforged codec IsMinted =
    (signature signed : String)
    → codec.check signature signed ≡ true
    → (c : CapabilityClaims) × IsMinted c × (signed ≡ signed_text codec c)

stage_of-stage_value : (s : Stage) → stage_of (stage_value s) ≡ ok s
stage_of-stage_value Stage.trigger = refl
stage_of-stage_value _ = refl

optional_value-optional_text : (t : Option String) → optional_value (some (optional_text t)) ≡ ok t
optional_value-optional_text none = refl
optional_value-optional_text (some t) = refl

-- The claims are read back from their payload.
read_claims-payload : (c : CapabilityClaims) → read_claims (payload c) ≡ ok c
unfolding read_claims payload
read_claims-payload c =
    rw (stage_of-stage_value c.stage, optional_value-optional_text c.approval_id) refl

split-dotted : (a b : String) → has_char dot a ≡ false → split dot (dotted a b) ≡ a ∷ split dot b
split-dotted a b clean = split-join dot a (char 46 tt) b clean refl

split-two :
    (a b : String)
    → has_char dot a ≡ false
    → has_char dot b ≡ false
    → split dot (dotted a b) ≡ a ∷ b ∷ []
split-two a b clean_a clean_b =
    split-dotted a b clean_a ∙ ap (λ parts. a ∷ parts) (split_whole dot b clean_b)

-- The text that was signed tells its two parts.
dotted-injective :
    (a b a' b' : String)
    → has_char dot a ≡ false
    → has_char dot b ≡ false
    → has_char dot a' ≡ false
    → has_char dot b' ≡ false
    → dotted a b ≡ dotted a' b'
    → (a ≡ a') × (b ≡ b')
dotted-injective a b a' b' ha hb ha' hb' same =
    let parts = sym (split-two a b ha hb) ∙ ap (split dot) same ∙ split-two a' b' ha' hb' in
    (ground (arith, parts), ground (arith, parts))

module _ (codec : Codec) (IsMinted : CapabilityClaims → Type 0)
    (law : KeepsTokens codec IsMinted) where
  split-mint :
      (c : CapabilityClaims)
      → IsMinted c
      → split dot (mint codec c)
        ≡ codec.encode header ∷ codec.encode (payload c) ∷ codec.sign (signed_text codec c) ∷ []
  unfolding mint
  split-mint c minted =
      let head = codec.encode header in
      let body = codec.encode (payload c) in
      split-dotted head _ law.header_without_dot
      ∙ ap (λ parts. head ∷ parts)
          (split-two body _ (law.payload_without_dot c minted) (law.signature_without_dot c minted))

  -- A token that is minted verifies before it expires, and gives back exactly the claims that it was
  -- minted for; from the instant at which they expire it is refused.
  pub verify-mint :
      (c : CapabilityClaims) (now : ℕ)
      → IsMinted c
      → verify codec (mint codec c) now
        ≡ (if leb c.expires_at now then err capability_rejected else ok c)
  unfolding verify verify_parts
  verify-mint c now minted =
      rw
        (
          split-mint c minted,
          law.verifies c minted,
          law.reads_header,
          law.reads_payload c minted,
          read_claims-payload c,
        )
        (elim (Bool-cases (leb c.expires_at now)) [
          | inl late ↦ rw late refl
          | inr early ↦ rw early refl
        ])

  module _ (unforged : Unforged codec IsMinted) where
    parts-Minted :
        (parts : List String) (now : ℕ) (c : CapabilityClaims)
        → All (λ part. has_char dot part ≡ false) parts
        → verify_parts codec parts now ≡ ok c
        → IsMinted c × (now < c.expires_at)
    unfolding verify_parts
    parts-Minted (head ∷ body ∷ signature ∷ []) now c (hh, (hb, hs)) h =
        let (checked, h1) =
          require-eq-ok (codec.check signature (dotted head body)) capability_rejected _ h in
        let (k, minted, signed) = unforged signature (dotted head body) checked in
        let (_, same_body) =
          dotted-injective head body _ _ hh hb law.header_without_dot
            (law.payload_without_dot k minted) signed in
        let (header_value, _, h2) = >>=-eq-ok (decoded (codec.decode head)) _ h1 in
        let (_, h3) = require-eq-ok (is_header header_value) capability_rejected _ h2 in
        let (value, decodes, h4) = >>=-eq-ok (decoded (codec.decode body)) _ h3 in
        let (claims, reads, h5) = >>=-eq-ok (read_claims value) _ h4 in
        let (alive, h6) = reject_if-eq-ok (leb claims.expires_at now) capability_rejected _ h5 in
        let is_payload : decoded (codec.decode body) ≡ ok (payload k) =
          rw (same_body, law.reads_payload k minted) refl in
        let same_value = ok-injective (sym decodes ∙ is_payload) in
        let reads_k : read_claims value ≡ ok k = rw same_value (read_claims-payload k) in
        let same_claims = ok-injective (sym reads ∙ reads_k) in
        let returned = ok-injective h6 in
        (
          subst IsMinted (sym same_claims ∙ returned) minted,
          subst (λ x. now < x.expires_at) returned (ground (arith, alive)),
        )
    parts-Minted _ now c clean h = cc

    -- What an accepted token says is what the holder of the key minted, and it has not expired: when
    -- only minted texts have a signature that verifies, no token stands for other claims.
    pub verified-Minted :
        (token : String) (now : ℕ) (c : CapabilityClaims)
        → verify codec token now ≡ ok c
        → IsMinted c × (now < c.expires_at)
    unfolding verify
    verified-Minted token now c h = parts-Minted (split dot token) now c (split-Lacks dot token) h
