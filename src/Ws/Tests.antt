-- ===== src/Ws/Tests.antt =====
-- Runs of the hub, and the theorems applied to them.
use rssam.Common.{ℕ, ◌≡◌, refl, false, List, [], ◌∷◌}
use rssam.Common.Int.{pos}
use rssam.Common.Text.{Text, codes, trim_space, to_lower, has_prefix}
use rssam.Ws.{
  Client, Publish, Hub, register, unregister, offer, is_subscribed, distinct, publish_to_user,
  visit, visited, set_subscriptions, Step, registers, subscribes, publishes, visits, Reach, here,
  next, IsNew,
}
use rssam.Ws.Safety.{never_panics}
use rssam.Ws.Isolation.{Change, Step-Change}
use rssam.Ws.Channels.{is_channel, normalize_channels, normalize_loop}

hub : Unit {0}
unfolding register unregister offer is_subscribed distinct publish_to_user visit trim_space to_lower
    has_prefix is_channel normalize_channels normalize_loop
hub = tt

abbrev client : ℕ → Client
client c = record {
  user_id = pos c;
  send = [];
  shut = false;
  gone = false;
  closed = false;
  subscriptions = [];
}

abbrev start : Hub
start = record {
  clients = [];
  client_buffer = 1;
  at = client;
  reading = [];
  evicting = [];
  panicked = false;
}

start-IsNew : IsNew start
start-IsNew = record {
  no_clients = refl;
  no_readers = refl;
  calm = refl;
  empty = λ c. refl;
  open_channel = λ c. refl;
  present = λ c. refl;
}

abbrev feed : Text
feed = codes "feed:5"

abbrev joined : Hub
joined = register 7 start

joined-Step : Step start joined
joined-Step = registers 7 refl

abbrev asking : Hub
asking = set_subscriptions 7 (feed ∷ []) joined

abbrev publishing : Hub
publishing = publish_to_user (pos 7) (codes "all" ∷ feed ∷ []) (codes "news") asking

abbrev call : Publish
call = record {
  user_id = pos 7;
  channels = codes "all" ∷ feed ∷ [];
  payload = codes "news";
  todo = 7 ∷ [];
  slow = [];
}

publishing_reads : publishing.reading ≡ call ∷ []
unfolding hub
publishing_reads = refl

abbrev sent : Hub
sent = visited [] call [] [] (visit call 7 publishing)

sent-Step : Step publishing sent
sent-Step = visits [] call [] 7 [] publishing_reads refl

sent-Reach : Reach start sent
sent-Reach =
    next
      (next (next (next here joined-Step) (subscribes 7 (feed ∷ [])))
        (publishes (pos 7) (codes "all" ∷ feed ∷ []) (codes "news")))
      sent-Step

sent_runs : ((sent.at 7).send ≡ codes "news" ∷ []) × ((sent.at 8).send ≡ [])
unfolding hub
sent_runs = (refl, refl)

never_panics_example : sent.panicked ≡ false
never_panics_example = never_panics start-IsNew sent-Reach

Step-Change_example : Change publishing sent 7
Step-Change_example = Step-Change sent-Step 7

abbrev asked_channels : List Text
asked_channels =
    codes " Feed:5 " ∷ feed ∷ codes "feed:0" ∷ codes "category:x" ∷ codes "all" ∷ codes "news" ∷ []

channels_run : normalize_channels asked_channels ≡ feed ∷ codes "all" ∷ []
unfolding hub
channels_run = refl
