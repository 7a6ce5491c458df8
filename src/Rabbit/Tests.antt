-- ===== src/Rabbit/Tests.antt =====
-- A broker that is reached, whose second call raises an exception.
use doxx.Base.{◌≡◌, ◌&&◌, ◌||◌, refl, true, false, none, some, [], ◌==◌, if◌then◌else◌}
use doxx.Fingerprint.{UrlSplit}
use doxx.Store.Samples.{phone_event}
use doxx.Rabbit.{recoverable, Transport, Aio, connect, publish, close}
use doxx.Rabbit.Sends.{HandsOver, publish-HandsOver}
use doxx.Rabbit.Nested.{nested, publish-nested}
use doxx.Rabbit.Half.{queue_left_undeclared}

abbrev split_site : UrlSplit
split_site = λ u. ("https", "mediapark.uz")

abbrev second_fails : Aio
second_fails = record {
  raises = λ n. if n == 1 then some recoverable else none;
  is_closed = λ n. false;
}

abbrev fresh : Transport
fresh = record {
  connection = false;
  channel = false;
  exchange = false;
  queue = false;
  calls = 0;
  readings = 0;
  handed = [];
}

abbrev opened : Transport
opened = record fresh { connection = true; channel = true }

publish-HandsOver_example :
    HandsOver split_site phone_event 2 [] (publish second_fails split_site true phone_event fresh)
publish-HandsOver_example = publish-HandsOver split_site phone_event second_fails true fresh

publish-nested_example :
    (nested (publish second_fails split_site true phone_event fresh).1 ≡ true)
    × ((publish second_fails split_site true phone_event fresh).0 ≡ none
        → ((publish second_fails split_site true phone_event fresh).1.exchange
            && (publish second_fails split_site true phone_event fresh).1.channel
            && (publish second_fails split_site true phone_event fresh).1.connection)
          ≡ true)
    × (((close second_fails split_site true fresh).exchange
          || (close second_fails split_site true fresh).queue
          || (close second_fails split_site true fresh).channel
          || (close second_fails split_site true fresh).connection)
        ≡ false)
publish-nested_example = publish-nested second_fails split_site true phone_event fresh refl

queue_left_undeclared_example :
    let first = connect second_fails split_site true opened in
    let second = connect second_fails split_site true first.1 in
    (first.0 ≡ some recoverable)
    × (second.0 ≡ none)
    × (second.1.exchange ≡ true)
    × (second.1.queue ≡ false)
    × (second.1.calls ≡ first.1.calls)
queue_left_undeclared_example =
    queue_left_undeclared second_fails split_site recoverable opened (λ n. refl) refl refl refl refl
      refl refl
