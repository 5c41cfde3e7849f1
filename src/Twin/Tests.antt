-- ===== src/Twin/Tests.antt =====
-- Timelines and licences at concrete values.
use sovereign_stack.Base.{
  ℕ, ◌≡◌, refl, some, none, true, false, [], ◌∷◌, ◌++◌, map, text, ok, replicate, Succeeds,
}
use sovereign_stack.Twin.Asset.{UsageRight}
use sovereign_stack.Twin.Timeline.{
  TwinTimelineEntry, TwinTimeline, entry_from_capture, modalities_of, new_timeline, append, put,
  sort_by_timestamp, latest, last, earliest, span_ms,
}
use sovereign_stack.Twin.Chronology.{IsChronological, upto, beyond, append_all, append_all-append}
use sovereign_stack.Twin.License.{
  TwinLicenseConstraints, LicenseTerms, LicenseServices, issue_license, accept,
}
use sovereign_stack.Twin.Unbound.{renegotiated, other_terms, accepted_renegotiated}

abbrev snapshot : ℕ → TwinTimelineEntry ℕ
unfolding entry_from_capture modalities_of
snapshot time =
    entry_from_capture (time ∷ []) (text "twin:1") (text "rcpt:1") (text "go2") time none none 8
      true true

abbrev timeline : TwinTimeline ℕ
timeline =
    append (append (append (new_timeline (text "timeline:go2")) (snapshot 30)) (snapshot 10))
      (snapshot 20)

times : map (λ e. e.timestamp) timeline.entries ≡ 10 ∷ 20 ∷ 30 ∷ []
unfolding append new_timeline sort_by_timestamp put snapshot
times = refl

span : span_ms timeline ≡ some 20
unfolding append new_timeline sort_by_timestamp put snapshot span_ms earliest latest last
span = refl

append_all-append_example :
    IsChronological
      (append_all (new_timeline (text "timeline:go2")) (snapshot 30 ∷ snapshot 10 ∷ [])).entries
    × ((append
          (append_all (new_timeline (text "timeline:go2")) (snapshot 30 ∷ snapshot 10 ∷ []))
          (snapshot 20)).entries
        ≡ upto
            (snapshot 20).timestamp
            (append_all
              (new_timeline (text "timeline:go2"))
              (snapshot 30 ∷ snapshot 10 ∷ [])).entries
          ++ (snapshot 20
              ∷ beyond
                  (snapshot 20).timestamp
                  (append_all
                    (new_timeline (text "timeline:go2"))
                    (snapshot 30 ∷ snapshot 10 ∷ [])).entries))
append_all-append_example =
    append_all-append (text "timeline:go2") (snapshot 30 ∷ snapshot 10 ∷ []) (snapshot 20)

abbrev services : LicenseServices ℕ
services = record {
  hashing = record { sha256 = λ t. replicate 32 0; hex = λ t. t };
  sign = λ m key. ok (m ++ key);
  string_json = λ t. t;
  number_json = λ n. n ∷ [];
  time_json = λ o. [];
  rights_json = λ r. [];
}

abbrev limited : TwinLicenseConstraints
limited = record {
  max_sim_runs = some 1;
  sim_agent_id = none;
  no_commercial = true;
  attribution = true;
  sublicensing = false;
}

abbrev generous : TwinLicenseConstraints
generous = record limited { max_sim_runs = none; no_commercial = false; sublicensing = true }

abbrev terms : LicenseTerms
terms = record {
  twin_id = text "twin:1";
  grantor_did = text "did:p";
  grantee_did = text "did:q";
  rights = UsageRight.simulate ∷ [];
  constraints = limited;
  expires_at = none;
  fee_mist = some 1000;
  private_key = text "key";
}

issued : Succeeds (issue_license services (text "u") 5 terms)
unfolding issue_license
issued = (_, refl)

accepted : Succeeds (accept services issued.0 (text "other"))
unfolding accept
accepted = (_, refl)

accepted_renegotiated_example :
    (issue_license services (text "u") 5 (other_terms services terms generous none)
      ≡ ok (renegotiated services issued.0 generous none))
    × (accept services (renegotiated services issued.0 generous none) (text "other")
        ≡ ok (renegotiated services accepted.0 generous none))
accepted_renegotiated_example =
    accepted_renegotiated services (text "u") 5 terms (text "other") issued.0 accepted.0 generous
      none issued.1 accepted.1
