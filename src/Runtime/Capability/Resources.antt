-- ===== src/Runtime/Capability/Resources.antt =====
-- Which resources a pattern of sovereign-runtime/src/capability.rs covers.
use sovereign_stack.Base.{
  ◌≡◌, ◌↔◌, [], ◌∷◌, ◌++◌, true, false, Text, Text_discrete, ends_with, eqb_iff, starts_with_sound,
  starts_with-append, ends_with-append, drop_last-append,
}
use sovereign_stack.Runtime.Capability.{resource_matches}

-- A pattern `prefix*` covers exactly the resources that begin with the prefix.
resource_matches-glob :
    (prefix resource : Text)
    → (resource_matches (prefix ++ b'*' ∷ []) resource ≡ true)
      ↔ ((rest : Text) × (resource ≡ prefix ++ rest))
unfolding resource_matches
resource_matches-glob prefix resource =
    rw (ends_with-append b'*' prefix, drop_last-append b'*' prefix)
      (starts_with_sound prefix resource, λ (rest, e). rw e (starts_with-append prefix rest))

-- Any other pattern covers itself alone.
pub resource_matches-exact :
    (pattern resource : Text)
    → ends_with b'*' pattern ≡ false
    → (resource_matches pattern resource ≡ true) ↔ (pattern ≡ resource)
unfolding resource_matches
resource_matches-exact pattern resource h = rw h (eqb_iff Text_discrete pattern resource)
