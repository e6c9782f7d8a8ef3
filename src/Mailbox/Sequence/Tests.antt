-- ===== src/Mailbox/Sequence/Tests.antt =====
-- The interpolation search on a concrete mailbox.
use bmagent.Base.{ℕ, ◌+◌, ◌≡◌, refl, List, [], ◌∷◌, arith}
use bmagent.Mailbox.Sequence.{at, get_sequence_number, search, round}
use bmagent.Mailbox.Sequence.Count.{IsSorted, count_below}
use bmagent.Mailbox.Sequence.Probe.{exact_probe, exact_probe-IsProbe}
use bmagent.Mailbox.Sequence.Search.{get_sequence_number-count}

abbrev uids : List ℕ
uids = 3 ∷ 4 ∷ 10 ∷ 50 ∷ []

-- An absent uid between the second and the third.
third : get_sequence_number exact_probe uids 7 ≡ at 3
unfolding get_sequence_number search round exact_probe
third = refl

uids-IsSorted : IsSorted uids
uids-IsSorted = ground arith

get_sequence_number-count_example :
    get_sequence_number exact_probe uids 7 ≡ at (count_below 7 uids + 1)
get_sequence_number-count_example =
    get_sequence_number-count exact_probe uids 7 exact_probe-IsProbe uids-IsSorted (omega arith)
      (ground arith)
