-- ===== src/Cluster/Examples.antt =====
-- A value that expires after a second.
use montr.Base.{none, some, List, [], ◌∷◌, codes, text_eq, text_beq, arith, ◌≡◌}
use montr.Cluster.SessionStore
use montr.Cluster.SessionStore.{Call, gets, sets, deletes}
use montr.Cluster.Expiry.{run, run-reads_last}

abbrev a_second : List Call
a_second =
    sets (codes "k") (codes "v") (some 1) 100 ∷ gets (codes "k") 1100 ∷ gets (codes "k") 1101 ∷ []

run-reads_last_example : SessionStore.run [] a_second ≡ some (codes "v") ∷ none ∷ []
unfolding run text_beq
run-reads_last_example = run-reads_last a_second (omega arith, (omega arith, tt))
