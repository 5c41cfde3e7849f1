-- ===== src/Twin/Unbound.antt =====
-- What the two signatures of a licence of twin-protocol/src/license.rs leave open.
use sovereign_stack.Base.{ℕ, ◌≡◌, ap, Option, Text, ok, bind-eq-ok, ok-injective}
use sovereign_stack.Twin.License.{
  TwinLicenseConstraints, TwinLicenseGrant, LicenseTerms, LicenseServices, license_root,
  issue_license, accept,
}

module _ {E : Type 0} (s : LicenseServices E) where
  -- the same licence with other constraints and another fee
  abbrev pub renegotiated : TwinLicenseGrant → TwinLicenseConstraints → Option ℕ → TwinLicenseGrant
  renegotiated g constraints fee = record g { constraints = constraints; fee_mist = fee }

  abbrev pub other_terms : LicenseTerms → TwinLicenseConstraints → Option ℕ → LicenseTerms
  other_terms c constraints fee = record c { constraints = constraints; fee_mist = fee }

  -- Both signatures leave the constraints and the fee open: from a licence that was issued and
  -- accepted, the one with any other constraints and fee is what issuing on those terms and
  -- accepting would have given, to the last byte of the root and of both signatures.
  pub accepted_renegotiated :
      (uuid : Text) (now : ℕ) (c : LicenseTerms) (key : Text) (g h : TwinLicenseGrant)
      (constraints : TwinLicenseConstraints) (fee : Option ℕ)
      → issue_license s uuid now c ≡ ok g
      → accept s g key ≡ ok h
      → (issue_license s uuid now (other_terms c constraints fee)
          ≡ ok (renegotiated g constraints fee))
        × (accept s (renegotiated g constraints fee) key ≡ ok (renegotiated h constraints fee))
  unfolding issue_license accept license_root
  accepted_renegotiated uuid now c key g h constraints fee issued accepted =
      let (sig, k, e) = bind-eq-ok (s.sign _ c.private_key) _ issued in
      let (sig2, k2, e2) = bind-eq-ok (s.sign g.merkle_root key) _ accepted in
      let same = ap (λ x. renegotiated x constraints fee) (ok-injective e) in
      let same2 = ap (λ x. renegotiated x constraints fee) (ok-injective e2) in
      (rw (k) (ap ok same), rw (k2) (ap ok same2))
