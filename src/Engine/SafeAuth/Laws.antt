-- ===== src/Engine/SafeAuth/Laws.antt =====
-- Who signed what the Safe's gate lets through.
use creation_of_energy_token.Prelude.{
  ℕ, ◌≤◌, ◌<◌, ◌≡◌, refl, ◌↔◌, true, false, List, [], ◌∷◌, ◌++◌, map, Text, text_Eq, includes,
  length, arith, inl, inr, append-nil, append_assoc, subst, ap, sym, ◌∙◌,
}
use creation_of_energy_token.Prelude.Sets.{Distinct, Within, Distinct-append, Distinct-append_fresh}
use creation_of_energy_token.Engine.Types.{
  ok-injective, ExecutionRequest, Result, ok, err, Exn, Result-cases,
}
use creation_of_energy_token.Engine.External.{Viem}
use creation_of_energy_token.Engine.SafeAuth.{
  SafeAuthConfig, to_lower_case, build_execution_auth_message, auth_domain, collect_signers,
  validate,
}

-- `keys` are the lower-case addresses that the signatures recover to, one for each.
abbrev pub Recovers : (Text → Result Text) → List Text → List Text → Type 0
Recovers recover [] [] = Unit
Recovers recover (s ∷ sigs) (k ∷ keys) =
    ((signer : Text) × (recover s ≡ ok signer) × (to_lower_case signer ≡ k))
    × Recovers recover sigs keys
Recovers recover _ _ = ⊥

module _ (recover : Text → Result Text) (owners : List Text) (id : Text) where
  collect_step :
      (s signer : Text) (sigs seen out : List Text)
      → recover s ≡ ok signer
      → collect_signers recover owners id (s ∷ sigs) seen ≡ ok out
      → (includes owners (to_lower_case signer) ≡ true)
        × (includes seen (to_lower_case signer) ≡ false)
        × (collect_signers recover owners id sigs (seen ++ to_lower_case signer ∷ []) ≡ ok out)
  unfolding collect_signers
  collect_step s signer sigs seen out e h = ground arith

  collect_thrown :
      (s : Text) {thrown : Exn} (sigs seen out : List Text)
      → recover s ≡ err thrown
      → collect_signers recover owners id (s ∷ sigs) seen ≡ ok out
      → ⊥
  unfolding collect_signers
  collect_thrown s sigs seen out e h = ground arith

  collect_sound :
      (sigs seen out : List Text)
      → collect_signers recover owners id sigs seen ≡ ok out
      → Distinct seen
      → (keys : List Text) × (out ≡ seen ++ keys)
        × Recovers recover sigs keys
        × Within owners keys
        × Distinct out
  unfolding collect_signers
  collect_sound [] seen out h d =
      ([], ok-injective (sym h) ∙ sym (append-nil seen), tt, tt, rw (ok-injective (sym h)) d)
  collect_sound (s ∷ sigs) seen out h d = elim (Result-cases (recover s)) [
    | inr (thrown, e) ↦ absurd (collect_thrown s sigs seen out e h)
    | inl (signer, e) ↦
        let k : Text = to_lower_case signer in
        let step = collect_step s signer sigs seen out e h in
        let (keys, same, recovers, within, distinct) =
          collect_sound sigs (seen ++ k ∷ []) out step.2 (Distinct-append seen k d step.1) in
        (
          k ∷ keys,
          same ∙ append_assoc seen (k ∷ []) keys,
          ((signer, e, refl), recovers),
          (step.0, within),
          distinct,
        )
  ]

  collect_complete :
      (sigs seen keys : List Text)
      → Recovers recover sigs keys
      → Within owners keys
      → Distinct (seen ++ keys)
      → collect_signers recover owners id sigs seen ≡ ok (seen ++ keys)
  unfolding collect_signers
  collect_complete [] seen [] r w d = rw append-nil
  collect_complete [] seen (k ∷ keys) r w d = absurd r
  collect_complete (s ∷ sigs) seen [] r w d = absurd r
  collect_complete (s ∷ sigs) seen (k ∷ keys) ((signer, e, lower), r) (own, w) d =
      let again : Distinct ((seen ++ k ∷ []) ++ keys) = rw (append_assoc seen (k ∷ []) keys) d in
      ground (
        arith,
        Distinct-append_fresh seen k keys d,
        collect_complete sigs (seen ++ k ∷ []) keys r w again,
        append_assoc seen (k ∷ []) keys,
      )

  length-Recovers : (sigs keys : List Text) → Recovers recover sigs keys → length keys ≡ length sigs
  length-Recovers [] [] r = refl
  length-Recovers [] (k ∷ keys) r = absurd r
  length-Recovers (s ∷ sigs) [] r = absurd r
  length-Recovers (s ∷ sigs) (k ∷ keys) (_, r) = omega (arith, length-Recovers sigs keys r)

-- The signatures recover, over the request's own message, to distinct owners of the Safe, at
-- least as many as its threshold; and there is a proof beyond "0x".
pub record IsAuthorized (viem : Viem) (config : SafeAuthConfig) (get_threshold : Result ℕ)
    (get_owners : Result (List Text)) (request : ExecutionRequest) (id : Text) : Type 0 where
  pub threshold : ℕ
  pub owners : List Text
  pub keys : List Text
  pub read_threshold : get_threshold ≡ ok threshold
  pub read_owners : get_owners ≡ ok owners
  pub recovers :
      Recovers
        (viem.recover_signer
          (auth_domain config)
          (build_execution_auth_message request.contract_id request.obligation_hash id))
        request.eip712_signatures
        keys
  pub owned : Within (map to_lower_case owners) keys
  pub distinct : Distinct keys
  pub enough : threshold ≤ length keys
  pub proof : 2 < length request.zk_proof.proof

module _ (viem : Viem) (config : SafeAuthConfig) (get_threshold : Result ℕ)
    (get_owners : Result (List Text)) (request : ExecutionRequest) (id : Text) where
  abbrev recover : Text → Result Text
  recover =
      viem.recover_signer (auth_domain config)
        (build_execution_auth_message request.contract_id request.obligation_hash id)

  abbrev collect : List Text → Result (List Text)
  collect owners =
      collect_signers recover (map to_lower_case owners) id request.eip712_signatures []

  validate_sound :
      validate viem config get_threshold get_owners request id ≡ ok tt
      → IsAuthorized viem config get_threshold get_owners request id
  unfolding validate
  validate_sound h = elim (Result-cases get_threshold) [
    | inr (thrown, e) ↦ absurd (ground arith)
    | inl (threshold, e) ↦ elim (Result-cases get_owners) [
      | inr (thrown, f) ↦ absurd (ground arith)
      | inl (owners, f) ↦ elim (Result-cases (collect owners)) [
        | inr (thrown, g) ↦ absurd (ground arith)
        | inl (out, g) ↦
            let (keys, same, recovers, owned, distinct) =
              collect_sound recover (map to_lower_case owners) id request.eip712_signatures [] out g
                tt in
            record {
              threshold = threshold;
              owners = owners;
              keys = keys;
              read_threshold = e;
              read_owners = f;
              recovers = recovers;
              owned = owned;
              distinct = subst Distinct same distinct;
              enough = ground (arith, ap length same);
              proof = ground arith;
            }
      ]
    ]
  ]

  validate_complete :
      IsAuthorized viem config get_threshold get_owners request id
      → validate viem config get_threshold get_owners request id ≡ ok tt
  unfolding validate
  validate_complete a = ground (
    arith,
    a.read_threshold,
    a.read_owners,
    length-Recovers recover a.owners id request.eip712_signatures a.keys a.recovers,
    collect_complete recover (map to_lower_case a.owners) id request.eip712_signatures [] a.keys
        a.recovers a.owned a.distinct,
  )

  -- The gate opens exactly when the Safe's threshold and owners can be read, the signatures
  -- recover over the request's own message to distinct owners, at least as many as the threshold,
  -- and there is a proof beyond "0x".
  pub validate-IsAuthorized_iff :
      (validate viem config get_threshold get_owners request id ≡ ok tt)
      ↔ IsAuthorized viem config get_threshold get_owners request id
  validate-IsAuthorized_iff = (validate_sound, validate_complete)
