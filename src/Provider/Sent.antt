-- ===== src/Provider/Sent.antt =====
-- Telling the status of a push that was sent from the others.
use mathlib.Core.Bool.{false≢true}
use slay_push.Base.{ap, ◌∙◌, sym, true, false, ◌≡◌, Bool}
use slay_push.Provider.{Status}

unfoldable pub is_sent : Status → Bool
is_sent Status.sent = true
is_sent _ = false

pub not_sent : (s : Status) → is_sent s ≡ false → ¬ (s ≡ Status.sent)
unfolding is_sent
not_sent s h e = false≢true (sym h ∙ ap is_sent e)
