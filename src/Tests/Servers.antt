-- ===== src/Tests/Servers.antt =====
-- cmd/mailschleuse at concrete inputs: the servers on one store.
use mailschleuse.Base.{◌≡◌, ◌<◌, some, ◌∷◌, All, Bytes, codes, arith}
use mailschleuse.Store.State.{Store}
use mailschleuse.Store.Steps.{IsKept}
use mailschleuse.Smtpd.Session.Loop.{step}
use mailschleuse.Web.Server.{serve}
use mailschleuse.Web.Compose.Lines.{wrap_base64}
use mailschleuse.Web.Compose.Encoded.{decode_transfer-wrap_base64}
use mailschleuse.Mailparse.Decoding.{decode_transfer}
use mailschleuse.Main.{open_store}
use mailschleuse.Main.System.{shared, Runs, opened, turn, smtp_round, http_request, Runs-IsKept}
use mailschleuse.Tests.Fixtures.{world, smtp_options, submission, connected, stamps-IsFresh}
use mailschleuse.Tests.Startup.{config}
use mailschleuse.Tests.Web.{web_world, web_options, importing}
use mailschleuse.Tests.Mail.{codec}

-- The store after one round of an SMTP session.
abbrev after_round : Store
after_round =
    (step world smtp_options
      (record { session = connected submission; store = open_store config })).0.store

abbrev after_request : Store
after_request = (serve (shared world web_world) web_options importing after_round).0

runs : Runs world web_world (open_store config) after_request
runs =
    turn (turn opened (smtp_round smtp_options (connected submission) (open_store config)))
      (http_request web_options importing after_round)

Runs-IsKept_example : IsKept world.stamp after_request
Runs-IsKept_example = Runs-IsKept world web_world config stamps-IsFresh runs

-- More bytes than a line of 76 characters holds.
abbrev content : Bytes
content =
    0
    ∷ 255
    ∷ 128
    ∷ codes "A text that is long enough for two lines of base64, with some more words behind it."

content-AreBytes : All (λ c. c < 256) content
content-AreBytes = ground arith

decode_transfer-wrap_base64_example :
    decode_transfer codec (wrap_base64 content) (codes "base64") ≡ some content
decode_transfer-wrap_base64_example = decode_transfer-wrap_base64 codec content content-AreBytes
