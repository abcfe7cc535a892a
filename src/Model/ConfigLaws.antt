-- ===== src/Model/ConfigLaws.antt =====
-- What a configuration that validates is sure of: `Config::validate` of src/model/validation.rs.
use aictx.Base.{
  ◌≡◌, refl, false, List, [], ◌∷◌, map, Text, Eq, ◌==◌, contains, ok, arith, text_eq, ==_iff,
  Result-cases, inl, inr, >>=-eq-ok, subst,
}
use aictx.Contracts.Types.{Provider, provider_eq}
use aictx.Resolver.Context.{ProfileId, ascii_lowercase}
use aictx.Model.FilePath.{components_eq}
use aictx.Model.ProfileUid.{for_state_dir}
use aictx.Model.Wif.{Encoder}
use aictx.Model.Profile.{Profile, profile_provider, profile_uid_of, state_dir_of, validate_profile}
use aictx.Model.Config.{Config, Seen, folded_name, folded_name_eq, validate_entry, validate_entries}

abbrev pub All {ℓ κ} : {A : Type ℓ} → (A → Type κ) → List A → Type κ
All P [] = Unit
All P (x ∷ xs) = P x × All P xs

-- No element occurs again behind itself.
abbrev pub Distinct : {K : Type 0} ⦃e : Eq K⦄ → List K → Type 0
Distinct [] = Unit {0}
Distinct (k ∷ ks) = (contains ks k ≡ false) × Distinct ks

module _ {A K : Type 0} ⦃e : Eq K⦄ (key : A → K) where
  -- The keys are distinct, and none has been seen.
  abbrev pub Fresh : List K → List A → Type 0
  Fresh seen xs = Distinct (map key xs) × All (λ x. contains seen (key x) ≡ false) xs

  not_again :
      (seen : List K) (k : K) (xs : List A)
      → All (λ x. contains (k ∷ seen) (key x) ≡ false) xs
      → (contains (map key xs) k ≡ false) × All (λ x. contains seen (key x) ≡ false) xs
  not_again seen k [] all = (refl, tt)
  not_again seen k (x ∷ xs) (now, later) =
      let (rest, unseen) = not_again seen k xs later in
      let differ : (key x == k) ≡ false = ground (arith, ==_iff k (key x), ==_iff (key x) k) in
      let absent : contains seen (key x) ≡ false = ground arith in (ground arith, (absent, unseen))

  pub Fresh_cons :
      (seen : List K) (x : A) (xs : List A)
      → contains seen (key x) ≡ false
      → Fresh (key x ∷ seen) xs
      → Fresh seen (x ∷ xs)
  Fresh_cons seen x xs unseen (distinct, all) =
      let (absent, rest) = not_again seen (key x) xs all in ((absent, distinct), (unseen, rest))

abbrev pub Entry : Type 0
Entry = ProfileId × Profile

abbrev pub folded_dir : Entry → Text
folded_dir entry = ascii_lowercase (state_dir_of entry.1)

abbrev pub uid_of : Entry → Text
uid_of entry = profile_uid_of entry.1

abbrev pub name_of : Entry → (Provider × Text)
name_of entry = folded_name entry.0

-- What is sure of one entry: its provider, its derived UID, which is not retired, and the checks of
-- its profile.
pub record SoundEntry (sha256 : Text → Text) (encode : Encoder) (c : Config) (entry : Entry)
    : Type 0 where
  pub provider : entry.0.provider ≡ profile_provider entry.1
  pub derived :
      for_state_dir sha256 c.installation_uid entry.0.provider (state_dir_of entry.1)
      ≡ ok (profile_uid_of entry.1)
  pub current : contains c.retired_profile_uids (profile_uid_of entry.1) ≡ false
  pub profile : validate_profile encode entry.1 ≡ ok tt

module _ (sha256 : Text → Text) (encode : Encoder) (c : Config) where
  record Round (seen next : Seen) (entry : Entry) : Type 0 where
    sound : SoundEntry sha256 encode c entry
    new_name : contains seen.names (name_of entry) ≡ false
    new_uid : contains seen.uids (uid_of entry) ≡ false
    new_dir : contains seen.state_dirs (folded_dir entry) ≡ false
    names : next.names ≡ name_of entry ∷ seen.names
    uids : next.uids ≡ uid_of entry ∷ seen.uids
    state_dirs : next.state_dirs ≡ folded_dir entry ∷ seen.state_dirs

  validate_entry-Round :
      (seen next : Seen) (entry : Entry)
      → validate_entry sha256 encode c seen entry ≡ ok next
      → Round seen next entry
  unfolding validate_entry
  validate_entry-Round seen next (id, profile) h =
      elim (Result-cases
        (for_state_dir sha256 c.installation_uid id.provider (state_dir_of profile))) [
          | inr (e, failed) ↦ absurd (ground arith)
          | inl (uid, derived) ↦
              let same = ==_iff (profile_uid_of profile) uid in
              record {
                sound = record {
                  provider = ground (arith, ==_iff id.provider (profile_provider profile));
                  derived = ground (arith, same);
                  current = ground arith;
                  profile = ground arith;
                };
                new_name = ground arith;
                new_uid = ground arith;
                new_dir = ground arith;
                names = ground arith;
                uids = ground arith;
                state_dirs = ground arith;
              }
        ]

  -- What is sure of the entries behind the ones that were seen.
  pub record SoundRest (seen : Seen) (entries : List Entry) : Type 0 where
    pub every : All (SoundEntry sha256 encode c) entries
    pub names : Fresh name_of seen.names entries
    pub uids : Fresh uid_of seen.uids entries
    pub state_dirs : Fresh folded_dir seen.state_dirs entries

  pub validate_entries-SoundRest :
      (seen : Seen) (entries : List Entry)
      → validate_entries sha256 encode c seen entries ≡ ok tt
      → SoundRest seen entries
  unfolding validate_entries
  validate_entries-SoundRest seen [] h = record {
    every = tt;
    names = (tt, tt);
    uids = (tt, tt);
    state_dirs = (tt, tt);
  }
  validate_entries-SoundRest seen (entry ∷ rest) h =
      let (next, first, more) = >>=-eq-ok (validate_entry sha256 encode c seen entry) _ h in
      let round = validate_entry-Round seen next entry first in
      let ih = validate_entries-SoundRest next rest more in
      record {
        every = (round.sound, ih.every);
        names =
            Fresh_cons name_of seen.names entry rest round.new_name
              (subst (λ s. Fresh name_of s rest) round.names ih.names);
        uids =
            Fresh_cons uid_of seen.uids entry rest round.new_uid
              (subst (λ s. Fresh uid_of s rest) round.uids ih.uids);
        state_dirs =
            Fresh_cons folded_dir seen.state_dirs entry rest round.new_dir
              (subst (λ s. Fresh folded_dir s rest) round.state_dirs ih.state_dirs);
      }
