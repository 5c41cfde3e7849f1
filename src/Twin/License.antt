-- ===== src/Twin/License.antt =====
-- twin-protocol/src/license.rs: the licence that an owner grants on a twin and that the grantee
-- accepts. The UUID and the clock are arguments.
use sovereign_stack.Base.{
  ℕ, Bool, false, Option, none, some, List, [], ◌∷◌, ◌++◌, Text, text, contains, ltb, Result, ok,
  ◌>>=◌,
}
use sovereign_stack.Shared.Merkle.{Hashing, merkle_root}
use sovereign_stack.Twin.Simulation.{text_of}
use sovereign_stack.Twin.Asset.{UsageRight}

unfoldable pub UsageRight_discrete : Discrete UsageRight
UsageRight_discrete = hlevel

pub record TwinLicenseConstraints : Type 0 where
  pub max_sim_runs : Option ℕ
  pub sim_agent_id : Option Text
  pub no_commercial : Bool
  pub attribution : Bool
  pub sublicensing : Bool

pub record TwinLicenseGrant : Type 0 where
  pub grant_id : Text
  pub twin_id : Text
  pub grantor_did : Text
  pub grantee_did : Text
  pub rights : List UsageRight
  pub constraints : TwinLicenseConstraints
  pub issued_at : ℕ
  pub expires_at : Option ℕ
  pub fee_mist : Option ℕ
  pub sui_tx : Option Text
  pub merkle_root : Text
  pub grantor_sig : Text
  pub grantee_sig : Option Text

-- The arguments of `issue`.
pub record LicenseTerms : Type 0 where
  pub twin_id : Text
  pub grantor_did : Text
  pub grantee_did : Text
  pub rights : List UsageRight
  pub constraints : TwinLicenseConstraints
  pub expires_at : Option ℕ
  pub fee_mist : Option ℕ
  pub private_key : Text

-- `sign` takes the text and the private key.
pub record LicenseServices (E : Type 0) : Type 0 where
  pub hashing : Hashing
  pub sign : Text → Text → Result E Text
  pub string_json : Text → Text
  pub number_json : ℕ → Text
  pub time_json : Option ℕ → Text
  pub rights_json : List UsageRight → Text

unfoldable pub has_right : TwinLicenseGrant → UsageRight → Bool
has_right g right = contains UsageRight_discrete right g.rights

abbrev pub past : (now : ℕ) → Option ℕ → Bool
past now none = false
past now (some exp) = ltb exp now

unfoldable pub license_is_expired : (now : ℕ) → TwinLicenseGrant → Bool
license_is_expired now g = past now g.expires_at

module _ {E : Type 0} (s : LicenseServices E) where
  -- the fields of the root, in the order of their keys
  unfoldable pub license_root : (grant_id : Text) (now : ℕ) → LicenseTerms → Text
  license_root grant_id now c = text_of (
      merkle_root s.hashing (
        (text "expires_at", s.time_json c.expires_at)
        ∷ (text "grant_id", s.string_json grant_id)
        ∷ (text "grantee_did", s.string_json c.grantee_did)
        ∷ (text "grantor_did", s.string_json c.grantor_did)
        ∷ (text "issued_at", s.number_json now)
        ∷ (text "rights", s.rights_json c.rights)
        ∷ (text "twin_id", s.string_json c.twin_id)
        ∷ []))

  -- `TwinLicenseGrant::issue`
  unfoldable pub issue_license : (uuid : Text) (now : ℕ) → LicenseTerms → Result E TwinLicenseGrant
  issue_license uuid now c =
      let grant_id = text "lic:" ++ uuid in
      let root = license_root grant_id now c in
      s.sign root c.private_key >>= λ sig. ok (record {
        grant_id = grant_id;
        twin_id = c.twin_id;
        grantor_did = c.grantor_did;
        grantee_did = c.grantee_did;
        rights = c.rights;
        constraints = c.constraints;
        issued_at = now;
        expires_at = c.expires_at;
        fee_mist = c.fee_mist;
        sui_tx = none;
        merkle_root = root;
        grantor_sig = sig;
        grantee_sig = none;
      })

  unfoldable pub accept :
      TwinLicenseGrant → (grantee_private_key : Text) → Result E TwinLicenseGrant
  accept g grantee_private_key =
      s.sign g.merkle_root grantee_private_key >>= λ sig. ok (record g { grantee_sig = some sig })
