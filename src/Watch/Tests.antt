-- ===== src/Watch/Tests.antt =====
-- Runs of src/service/watch.rs, and instances of the theorems.
use ii.Prelude.{◌≡◌, refl, true, false, [], ◌∷◌}
use ii.Prelude.Text.{Str, codes}
use ii.Watch.{FileStamp, get, insert, remove, Files, retain, settle, settle_all, round}
use ii.Watch.Each.{view}
use ii.Watch.Settled.{History, after}

abbrev path : Str
path = codes "a.txt"

abbrev small : FileStamp
small = record { size = 3; modified = 10 }

abbrev large : FileStamp
large = record { size = 5; modified = 11 }

abbrev now_small : Files
now_small = (path, small) ∷ []

abbrev now_large : Files
now_large = (path, large) ∷ []

abbrev older : History
older = (20, now_large) ∷ (10, now_large) ∷ []

not_sent_at_20 : (view path (after 30 now_small older)).sent ≡ false
unfolding after round settle_all settle get insert remove retain
not_sent_at_20 = refl

-- A file that was sent with the first stamp, is replaced, put back, and replaced again is sent at
-- once, although it had the new stamp for no more than one round.
put_back : History
put_back = (39, now_small) ∷ (10, now_large) ∷ []

sent_at_once : (view path (round 40 30 now_large (after 30 now_small put_back))).sent ≡ true
unfolding put_back after round settle_all settle get insert remove retain
sent_at_once = refl
