-- ===== src/Engine/Cas/Laws.antt =====
-- Reading what was written: each kind of file on its own, and each id by its digits.
use makedown.Base.{
  ℕ, suc, ◌≤◌, nat_eq, Text, text_eq, true, none, some, [], ◌∷◌, ◌≡◌, ◌==◌, length, if◌then◌else◌,
  arith, eq_refl, Bool-cases,
}
use makedown.Base.Map.{Map, get, set, get-set}
use makedown.Engine.Cas.{
  Bytes, Samples, LocalCas, SampleInput, hex, samples_of, has_object, get_object, put,
  count_samples, put_sample, get_sample, get_blessed,
}

pub get_object-put :
    (cas : LocalCas) (id j : Text) (content : Bytes)
    → get_object (put cas id content) j
      ≡ (if hex id == hex j then some content else get_object cas j)
unfolding get_object put
get_object-put cas id j content = get-set cas.objects (hex id) (hex j) content

pub has_object-put_self :
    (cas : LocalCas) (id : Text) (content : Bytes) → has_object (put cas id content) id ≡ true
unfolding has_object put
has_object-put_self cas id content =
    ground (arith, get-set cas.objects (hex id) (hex id) content, eq_refl (hex id))

-- An object is never removed.
pub has_object-put :
    (cas : LocalCas) (id : Text) (content : Bytes) (j : Text)
    → has_object cas j ≡ true
    → has_object (put cas id content) j ≡ true
unfolding has_object put
has_object-put cas id content j h =
    ground (arith, get-set cas.objects (hex id) (hex j) content, Bool-cases (hex id == hex j))

length-set_new :
    (m : Map ℕ Bytes) (k : ℕ) (v : Bytes) → get m k ≡ none → length (set m k v) ≡ suc (length m)
unfolding get set
length-set_new [] k v h = omega arith
length-set_new ((j, w) ∷ m) k v h = ground (arith, length-set_new m k v)

length-set_le : (m : Map ℕ Bytes) (k : ℕ) (v : Bytes) → length m ≤ length (set m k v)
unfolding set
length-set_le [] k v = omega arith
length-set_le ((j, w) ∷ m) k v = ground (arith, length-set_le m k v)

-- A sample under a new index is one more, and is read back; the blessed index stays.
put_sample_lem :
    (cas : LocalCas) (s : SampleInput)
    → get_sample cas s.id s.index ≡ none
    → (count_samples (put_sample cas s) s.id ≡ suc (count_samples cas s.id))
      × (get_sample (put_sample cas s) s.id s.index ≡ some s.content)
      × (get_blessed (put_sample cas s) s.id ≡ get_blessed cas s.id)
unfolding count_samples put_sample get_sample get_blessed
put_sample_lem cas s h =
    let dir = samples_of cas s.id in
    let dir' : Samples = record dir {
      contents = set dir.contents s.index s.content;
      provenances = set dir.provenances s.index s.provenance;
    } in
    ground (
      arith,
      get-set cas.samples (hex s.id) (hex s.id) dir',
      eq_refl (hex s.id),
      length-set_new dir.contents s.index s.content,
      get-set dir.contents s.index s.index s.content,
    )
