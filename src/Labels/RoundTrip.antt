-- ===== src/Labels/RoundTrip.antt =====
-- pkg/labels/labels.go: writing labels on a container and reading them back.
use gameserver_daemon.Common.{String, ◌≡◌, refl, true, false, arith, [], Bool}
use gameserver_daemon.Common.{if◌then◌else◌, ◌==◌, string_dec}
use gameserver_daemon.Common.Dict.{Dict, insert, get, lookup-insert, lookup-nil}
use gameserver_daemon.Labels.{WorkloadLabels, set_if, to_map, from_map}

-- `m[j]` after `m[k] = v`.
pub get-insert :
    (j k v : String) (d : Dict String) → get (insert k v d) j ≡ (if k == j then v else get d j)
unfolding get
get-insert j k v d = ground (arith, lookup-insert j k v d)

pub get-set_if :
    (j k v : String) (d : Dict String)
    → get (set_if k v d) j ≡ (if k == j then if v == "" then get d j else v else get d j)
unfolding set_if
get-set_if j k v d = ground (arith, get-insert j k v d)

pub get-nil : (j : String) → get [] j ≡ ""
unfolding get
get-nil j = ground (arith, lookup-nil {0} {V = String} j)

-- A non-empty value is what is read; an empty one leaves the key out, which reads as the empty text.
pub or_empty : (v : String) → (if v == "" then "" else v) ≡ v
or_empty v = ground arith

pub if_same {ℓ} : {A : Type ℓ} (b : Bool) (x : A) → (if b then x else x) ≡ x
if_same true x = refl
if_same false x = refl

pub ruleset get_laws = (get-insert, get-set_if, get-nil, or_empty, if_same)

-- Reading back the labels that `to_map` writes gives the labels that were written, all eight of
-- them, the empty ones too.
pub from_map-to_map : (l : WorkloadLabels) → from_map (to_map l) ≡ l
unfolding from_map to_map string_dec
from_map-to_map l = simp get_laws
