-- ===== src/Scoring/Stage/Pairs.antt =====
-- Stages and intents: each intent belongs to one stage, and the rules rated high decide.
use echidra_oss.Base.{if_either, ◌≤◌, List, String, ◌≡◌, refl, arith, true, Option, ap, ◌∙◌}
use echidra_oss.Features.{SessionFeatures}
use echidra_oss.Rules.{RuleMatch}
use echidra_oss.Scoring.Tags.{elem}
use echidra_oss.Scoring.Stage.{
  BehaviorStage, Intent, tags_of, deciding_tags, tagged_stage, untagged_stage,
  behavior_stage_and_intent,
}
use mathlib.Core.List.{Memᴰ}
use echidra_oss.Scoring.Tags.Order.{elem-append}
use echidra_oss.Scoring.Vote.Decisive.{Memᴰ-keep, nonempty_of_Memᴰ}

-- The stage in which an intent is pursued.
abbrev pub stage_of : Intent → BehaviorStage
stage_of Intent.unknown = BehaviorStage.none
stage_of Intent.reconnaissance = BehaviorStage.discovery
stage_of Intent.credential_theft = BehaviorStage.credential_access
stage_of Intent.data_access = BehaviorStage.collection
stage_of Intent.interactive_operation = BehaviorStage.execution
stage_of Intent.vulnerability_exploitation = BehaviorStage.execution
stage_of Intent.payload_delivery = BehaviorStage.execution
stage_of Intent.persistence = BehaviorStage.persistence

untagged_stage-stage_of :
    (ms : List RuleMatch) (features : Option SessionFeatures)
    → (untagged_stage ms features).0 ≡ stage_of (untagged_stage ms features).1
unfolding untagged_stage
untagged_stage-stage_of ms features = ground arith

record Agrees (p : BehaviorStage × Intent) : Type 0 where
  same : p.0 ≡ stage_of p.1

agreed : (i : Intent) → Agrees (stage_of i, i)
agreed i = record { same = refl }

tagged_stage-Agrees :
    (tags : List String) (otherwise : BehaviorStage × Intent)
    → Agrees otherwise
    → Agrees (tagged_stage tags otherwise)
unfolding tagged_stage
tagged_stage-Agrees tags otherwise h = if_either Agrees _ _ _ (agreed Intent.payload_delivery) (
    if_either Agrees _ _ _ (agreed Intent.persistence) (
      if_either Agrees _ _ _ (agreed Intent.credential_theft) (
        if_either Agrees _ _ _ (agreed Intent.data_access) (
          if_either Agrees _ _ _ (agreed Intent.vulnerability_exploitation) (
            if_either Agrees _ _ _ (agreed Intent.reconnaissance)
              (if_either Agrees _ _ _ (agreed Intent.interactive_operation) h))))))

-- Whatever matched, the stage that is reported is the one that belongs to the reported intent; so
-- a stage other than none never comes with the unknown intent, nor the other way round.
behavior_stage_and_intent-stage_of :
    (ms : List RuleMatch) (tags : List String) (features : Option SessionFeatures)
    → (behavior_stage_and_intent ms tags features).0
      ≡ stage_of (behavior_stage_and_intent ms tags features).1
unfolding behavior_stage_and_intent
behavior_stage_and_intent-stage_of ms tags features =
    let h : Agrees (untagged_stage ms features) = record {
      same = untagged_stage-stage_of ms features;
    } in
    (tagged_stage-Agrees (deciding_tags ms tags) _ h).same

tagged_stage-download :
    (tags : List String) (otherwise : BehaviorStage × Intent)
    → elem "T1105" tags ≡ true
    → tagged_stage tags otherwise ≡ (BehaviorStage.execution, Intent.payload_delivery)
unfolding tagged_stage
tagged_stage-download tags otherwise h = rw h

tags_of-elem :
    (t : String) {m : RuleMatch} {ms : List RuleMatch}
    → Memᴰ m ms
    → elem t m.mitre_tags ≡ true
    → elem t (tags_of ms) ≡ true
tags_of-elem t {m} (Memᴰ.head {x = x} {xs = xs} e) h =
    elem-append t x.mitre_tags (tags_of xs)
    ∙ ground (arith, ap (λ (r : RuleMatch). elem t r.mitre_tags) e)
tags_of-elem t {m} (Memᴰ.tail {x = x} {xs = xs} k) h =
    elem-append t x.mitre_tags (tags_of xs) ∙ ground (arith, tags_of-elem t k h)

-- When a matched rule that is rated high carries the tag of a download (T1105), the session counts
-- as a payload delivery, whatever else matched and whatever the features are.
behavior_stage_and_intent-download :
    (ms : List RuleMatch) (tags : List String) (features : Option SessionFeatures) (d : RuleMatch)
    → Memᴰ d ms
    → 65 ≤ d.risk_score
    → elem "T1105" d.mitre_tags ≡ true
    → behavior_stage_and_intent ms tags features
      ≡ (BehaviorStage.execution, Intent.payload_delivery)
unfolding behavior_stage_and_intent deciding_tags
behavior_stage_and_intent-download ms tags features d there rated carried =
    let kept = Memᴰ-keep ms there (ground arith) in
    rw (nonempty_of_Memᴰ kept) (tagged_stage-download _ _ (tags_of-elem "T1105" kept carried))
