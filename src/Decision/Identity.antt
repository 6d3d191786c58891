-- ===== src/Decision/Identity.antt =====
-- The identity of a signal: the separator of its parts is not escaped.
use Prim.Native.String.{◌++◌}
use text.Mathlib.TextLemmas.{append_assoc}
use tabdeal_futures_signal_b.Prelude.{◌≡◌, String, false, blank, blank-append_left, ok, arith}
use tabdeal_futures_signal_b.Domain.{SideDecision, signal}
use tabdeal_futures_signal_b.Decision.{canonical, build_signal_id}

-- Moving the separator from the end of the snapshot id to the front of the configuration version
-- leaves the canonical text as it is.
canonical_shift :
    (a b c : String) (d : SideDecision)
    → canonical (a ++ ("|" ++ b)) c d ≡ canonical a (b ++ ("|" ++ c)) d
unfolding canonical
canonical_shift a b c d = simp append_assoc

-- Two different contexts share one signal identity, whatever the hash: for a SIGNAL side, snapshot
-- `a|b` with configuration `c` and snapshot `a` with configuration `b|c` both succeed with the same
-- identity, when none of the three parts is blank.
pub identity_collides :
    (hexdigest : String → String) (a b c : String) (d : SideDecision)
    → blank a ≡ false
    → blank b ≡ false
    → blank c ≡ false
    → d.status ≡ signal
    → (build_signal_id hexdigest (a ++ ("|" ++ b)) c d
        ≡ ok (hexdigest (canonical a (b ++ ("|" ++ c)) d)))
      × (build_signal_id hexdigest a (b ++ ("|" ++ c)) d
          ≡ ok (hexdigest (canonical a (b ++ ("|" ++ c)) d)))
unfolding build_signal_id
identity_collides hexdigest a b c d ha hb hc hd =
    ground (
      arith,
      canonical_shift a b c d,
      blank-append_left a ("|" ++ b),
      blank-append_left b ("|" ++ c),
    )
