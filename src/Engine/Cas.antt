-- ===== src/Engine/Cas.antt =====
-- packages/engine/src/cas.ts: the store on the local disk. The file of an id is named by its hex
-- digits, and a sample's files by its index too, so each kind of file is a map from those.
pub mod Laws
use makedown.Base.{
  ℕ, suc, nat_eq, Text, text_eq, lit, Bool, Option, none, some, List, [], ◌∷◌, ◌==◌, length, take,
  drop, is_some, if◌then◌else◌,
}
use makedown.Base.Map.{Map, get, set}
use makedown.Types.{Provenance}

abbrev pub Bytes : Type 0
Bytes = List ℕ

-- One directory under `samples/`.
pub record Samples : Type 0 where
  pub contents : Map ℕ Bytes
  pub provenances : Map ℕ Provenance
  pub blessed : Option ℕ

pub record LocalCas : Type 0 where
  pub objects : Map Text Bytes
  pub provenance : Map Text Provenance
  pub samples : Map Text Samples

pub record SampleInput : Type 0 where
  pub id : Text
  pub index : ℕ
  pub content : Bytes
  pub provenance : Provenance

abbrev id_prefix : Text
id_prefix = lit "sha256:"

unfoldable pub hex : Text → Text
hex id = if take (length id_prefix) id == id_prefix then drop (length id_prefix) id else id

abbrev pub no_samples : Samples
no_samples = record { contents = []; provenances = []; blessed = none }

-- A directory that is missing is read as one with no files.
abbrev pub samples_of : LocalCas → Text → Samples
samples_of cas id = elim (get cas.samples (hex id)) [ none ↦ no_samples | some s ↦ s ]

abbrev pub with_samples : LocalCas → Text → Samples → LocalCas
with_samples cas id s = record cas { samples = set cas.samples (hex id) s }

unfoldable pub has_object : LocalCas → Text → Bool
has_object cas id = is_some (get cas.objects (hex id))

unfoldable pub get_object : LocalCas → Text → Option Bytes
get_object cas id = get cas.objects (hex id)

unfoldable pub put : LocalCas → Text → Bytes → LocalCas
put cas id content = record cas { objects = set cas.objects (hex id) content }

unfoldable pub get_provenance : LocalCas → Text → Option Provenance
get_provenance cas id = get cas.provenance (hex id)

unfoldable pub put_provenance : LocalCas → Provenance → LocalCas
put_provenance cas p = record cas { provenance = set cas.provenance (hex p.id) p }

-- The names in the directory that are numbers.
unfoldable pub count_samples : LocalCas → Text → ℕ
count_samples cas id = length (samples_of cas id).contents

unfoldable pub put_sample : LocalCas → SampleInput → LocalCas
put_sample cas s =
    let dir = samples_of cas s.id in
    with_samples cas s.id (record dir {
      contents = set dir.contents s.index s.content;
      provenances = set dir.provenances s.index s.provenance;
    })

unfoldable pub get_sample : LocalCas → Text → ℕ → Option Bytes
get_sample cas id index = get (samples_of cas id).contents index

unfoldable pub get_sample_provenance : LocalCas → Text → ℕ → Option Provenance
get_sample_provenance cas id index = get (samples_of cas id).provenances index

-- The first sample, where no number is stored.
unfoldable pub get_blessed : LocalCas → Text → ℕ
get_blessed cas id = elim (samples_of cas id).blessed [ none ↦ 0 | some n ↦ n ]

unfoldable pub set_blessed : LocalCas → Text → ℕ → LocalCas
set_blessed cas id index =
    let dir = samples_of cas id in with_samples cas id (record dir { blessed = some index })
