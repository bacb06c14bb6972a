-- ===== src/Privacy/Tests.antt =====
-- Redaction at concrete texts.
use replyline.Prelude.{Text, codes, contains, map, refl, some, true, ◌≡◌}
use replyline.Prelude.Unicode.{basic, basic_lower}
use replyline.Privacy.Markers.{guarded}
use replyline.Privacy.Values.{Redacts}
use replyline.Privacy.Redaction.{redact_after_marker-guarded}
use replyline.Privacy.{redact_after_marker, redact_secrets}

masks_bearer :
    redact_secrets basic (codes "Authorization: Bearer sk-secret-key-12345")
    ≡ some (codes "Authorization:[redacted] Bearer [redacted]")
unfolding redact_secrets
masks_bearer = refl

-- A scheme other than `Bearer` behind a blank is left as it is.
shows_token :
    redact_secrets basic (codes "Authorization: Token sk-secret-key-12345")
    ≡ some (codes "Authorization:[redacted] Token sk-secret-key-12345")
unfolding redact_secrets
shows_token = refl

redact_after_marker-guarded_example :
    (out : Text) × (redact_after_marker basic
        (codes "TOKEN=abc&x=1 token=[redacted]")
        (codes "token=")
      ≡ some out)
    × (guarded (codes "token=") (map basic_lower out) ≡ true)
    × Redacts (codes "token=") (codes "TOKEN=abc&x=1 token=[redacted]") out
unfolding contains
redact_after_marker-guarded_example =
    redact_after_marker-guarded basic (codes "TOKEN=abc&x=1 token=[redacted]") (codes "token=")
      (record {
        known = refl;
        lower = refl;
        filled = refl;
        no_open = refl;
        no_close = refl;
        apart = refl;
      })
      refl
