-- ===== src/Agent/Metrics.antt =====
-- agent/gpu_health_agent/metrics.py: `_esc` and `_Buf`. A value is given as the text that it prints as.
pub mod Labels
pub mod Render
pub mod Declared
pub mod Patched
use Prim.Native.Char.{Char, code}
use gpu_node_health.Base.{
  String, ◌<>◌, Bool, true, false, not, List, [], ◌∷◌, ◌++◌, map, ◌==◌, ◌=s=◌, contains, concat,
  join, if◌then◌else◌,
}
use gpu_node_health.Base.Dict.{Dict, put}
use gpu_node_health.Base.Strip.{replace_char}

unfoldable pub esc : String → String
unfolding replace_char
esc value = replace_char "\n" "\\n" (replace_char "\"" "\\\"" (replace_char "\\" "\\\\" value))

pub record Buf : Type 0 where
  pub node : String
  pub lines : List String
  pub declared : List String

-- `dict.update`
abbrev pub update : Dict String → Dict String → Dict String
update d [] = d
update d ((k, v) ∷ rest) = update (put k v d) rest

abbrev pub label : String × String → String
label (k, v) = k <> ("=\"" <> (esc v <> "\""))

-- The lines that declare a metric.
abbrev pub declaration : String → String → String → List String
declaration full mtype help_text =
    (if help_text =s= "" then [] else concat ("# HELP " ∷ full ∷ " " ∷ help_text ∷ []) ∷ [])
    ++ concat ("# TYPE " ∷ full ∷ " " ∷ mtype ∷ []) ∷ []

unfoldable pub metric : String → String → Dict String → String → String → Buf → Buf
metric name value labels mtype help_text b =
    let full = "gpuhealth_" <> name in
    let is_declared = contains full b.declared in
    let rendered = join "," (map label (update (("node", b.node) ∷ []) labels)) in
    record b {
      lines =
          (b.lines ++ (if is_declared then [] else declaration full mtype help_text))
          ++ concat (full ∷ "{" ∷ rendered ∷ "} " ∷ value ∷ []) ∷ [];
      declared = if is_declared then b.declared else full ∷ b.declared;
    }

unfoldable pub text : Buf → String
text b = join "\n" b.lines <> "\n"
