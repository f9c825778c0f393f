-- ===== src/Scheduling/Conflicts.antt =====
-- server/src/services/scheduling/conflict-resolver.ts.
pub mod Winner
pub mod Targets
use montr.Base.{
  ℕ, Text, Bool, true, false, Option, none, some, List, [], ◌∷◌, ◌++◌, codes, ltb, eqb, text_eq,
  if◌then◌else◌,
}
use montr.Base.Map.{Map, get, set}
use montr.Base.Texts.{show_number}
use montr.Scheduling.Types.{Schedule, truthy_text, truthy_number}

-- "client:<id>" | "group:<id>" | "global"
abbrev pub key_of : Option Text → Option ℕ → Text
key_of (some id) group = codes "client:" ++ id
key_of none (some id) = codes "group:" ++ show_number id
key_of none none = codes "global"

unfoldable pub target_key_for : Schedule → Text
target_key_for s = key_of (truthy_text s.client_id) (truthy_number s.group_id)

-- The comparator returns a negative number: `a` goes before `b`.
unfoldable pub goes_before : Schedule → Schedule → Bool
goes_before a b = if eqb b.priority a.priority then ltb a.id b.id else ltb b.priority a.priority

-- `Array.prototype.sort` is stable: each schedule goes behind those that it does not go before.
unfoldable pub insert : Schedule → List Schedule → List Schedule
insert s [] = s ∷ []
insert s (t ∷ ts) = if goes_before s t then s ∷ t ∷ ts else t ∷ insert s ts

unfoldable pub sort_from : List Schedule → List Schedule → List Schedule
sort_from sorted [] = sorted
sort_from sorted (s ∷ ss) = sort_from (insert s sorted) ss

unfoldable pub sort : List Schedule → List Schedule
unfolding insert sort_from
sort ss = sort_from [] ss

abbrev pub or_empty : Option (List Schedule) → List Schedule
or_empty none = []
or_empty (some ss) = ss

-- The first loop: buckets by target.
unfoldable pub bucket_all : Map Text (List Schedule) → List Schedule → Map Text (List Schedule)
bucket_all buckets [] = buckets
bucket_all buckets (s ∷ ss) =
    let key = target_key_for s in
    bucket_all (set key (or_empty (get key buckets) ++ s ∷ []) buckets) ss

pub record Resolution : Type 0 where
  pub winners : Map Text Schedule
  pub losers : Map Text (List Schedule)

-- A sorted bucket: `arr[0]` wins, the others lose. No bucket is empty.
abbrev pub settle : Text → List Schedule → Resolution → Resolution
settle key [] r = r
settle key (w ∷ []) r = record r { winners = set key w r.winners }
settle key (w ∷ l ∷ ls) r = record {
  winners = set key w r.winners;
  losers = set key (l ∷ ls) r.losers;
}

-- The second loop.
unfoldable pub settle_all : Map Text (List Schedule) → Resolution → Resolution
settle_all [] r = r
settle_all ((key, bucket) ∷ buckets) r = settle_all buckets (settle key (sort bucket) r)

unfoldable pub resolve_conflicts : List Schedule → Resolution
unfolding sort bucket_all settle_all target_key_for
resolve_conflicts matching =
    settle_all (bucket_all [] matching) (record { winners = []; losers = [] })
