-- ===== src/Exec/Kinds.antt =====
-- Kinds of events, by what they may change.
use opensearch_k8s_operator.Prelude.{ℕ}
use opensearch_k8s_operator.Exec.{
  Event, read, pod_deleted, sts_applied, sts_removed, sts_status_put, status_put, settings_put,
  written,
}

-- A read, or a change of the settings of OpenSearch.
abbrev pub OnlySettings : Event → Type 0
OnlySettings (read s) = Unit {0}
OnlySettings (pod_deleted n b) = ⊥
OnlySettings (sts_applied s b) = ⊥
OnlySettings (sts_removed n b) = ⊥
OnlySettings (sts_status_put s b) = ⊥
OnlySettings (status_put s b) = ⊥
OnlySettings (settings_put p t b) = Unit {0}
OnlySettings (written x b) = ⊥

-- No pod is deleted, and the spec of no StatefulSet is changed.
abbrev pub KeepsNodes : Event → Type 0
KeepsNodes (read s) = Unit {0}
KeepsNodes (pod_deleted n b) = ⊥
KeepsNodes (sts_applied s b) = ⊥
KeepsNodes (sts_removed n b) = ⊥
KeepsNodes (sts_status_put s b) = Unit {0}
KeepsNodes (status_put s b) = Unit {0}
KeepsNodes (settings_put p t b) = Unit {0}
KeepsNodes (written x b) = Unit {0}

-- A read.
abbrev pub OnlyReads : Event → Type 0
OnlyReads (read s) = Unit {0}
OnlyReads (pod_deleted n b) = ⊥
OnlyReads (sts_applied s b) = ⊥
OnlyReads (sts_removed n b) = ⊥
OnlyReads (sts_status_put s b) = ⊥
OnlyReads (status_put s b) = ⊥
OnlyReads (settings_put p t b) = ⊥
OnlyReads (written x b) = ⊥

pub OnlyReads-OnlySettings : (e : Event) → OnlyReads e → OnlySettings e
OnlyReads-OnlySettings (read s) h = tt
OnlyReads-OnlySettings (settings_put p t b) h = tt
OnlyReads-OnlySettings (pod_deleted n b) h = h
OnlyReads-OnlySettings (sts_applied s b) h = h
OnlyReads-OnlySettings (sts_removed n b) h = h
OnlyReads-OnlySettings (sts_status_put s b) h = h
OnlyReads-OnlySettings (status_put s b) h = h
OnlyReads-OnlySettings (written x b) h = h

pub OnlySettings-KeepsNodes : (e : Event) → OnlySettings e → KeepsNodes e
OnlySettings-KeepsNodes (read s) h = tt
OnlySettings-KeepsNodes (settings_put p t b) h = tt
OnlySettings-KeepsNodes (pod_deleted n b) h = h
OnlySettings-KeepsNodes (sts_applied s b) h = h
OnlySettings-KeepsNodes (sts_removed n b) h = h
OnlySettings-KeepsNodes (sts_status_put s b) h = tt
OnlySettings-KeepsNodes (status_put s b) h = tt
OnlySettings-KeepsNodes (written x b) h = tt

-- The number of deletions of pods.
abbrev pub deletion : Event → ℕ
deletion (read s) = 0
deletion (pod_deleted n b) = 1
deletion (sts_applied s b) = 0
deletion (sts_removed n b) = 0
deletion (sts_status_put s b) = 0
deletion (status_put s b) = 0
deletion (settings_put p t b) = 0
deletion (written x b) = 0

-- The number of changes of the spec of a StatefulSet.
abbrev pub application : Event → ℕ
application (read s) = 0
application (pod_deleted n b) = 0
application (sts_applied s b) = 1
application (sts_removed n b) = 0
application (sts_status_put s b) = 0
application (status_put s b) = 0
application (settings_put p t b) = 0
application (written x b) = 0
