-- ===== src/Address/Grammar/Describe/Keywords.antt =====
-- The tables of keywords of `parseDescription`, and the function itself. `high.?pri` is its two
-- cases, without and with the character between.
use dhf.Base.{List, [], ◌∷◌, Text, false, codes}
use dhf.Address.Grammar.{SemanticGrammar, to_lower_case, trim_start, trim_end}
use dhf.Address.Grammar.Describe.{
  Table, stem, whole_word, matching, first_matching, domain_value, find_entity, single,
}

abbrev pub domain_patterns : Table
domain_patterns =
    (stem (codes "reason|think|logic|infer|deduc|plan"), codes "reasoning")
    ∷ (stem (codes "convers|chat|discuss|talk|said|spoke"), codes "conversation")
    ∷ (stem (codes "percei|sens|observ|detect|see|hear|feel"), codes "perception")
    ∷ (stem (codes "act|do|execut|perform|run|operat"), codes "action")
    ∷ (stem (codes "learn|train|adapt|improv|updat"), codes "learning")
    ∷ (stem (codes "store|save|remember|record|log"), codes "storage")
    ∷ (stem (codes "retriev|recall|fetch|find|search|look"), codes "retrieval")
    ∷ (stem (codes "navigat|route|path|direct|locat"), codes "navigation")
    ∷ (stem (codes "emotion|feel|mood|sentiment"), codes "affect")
    ∷ (stem (codes "goal|intent|want|need|desire|objective"), codes "goal")
    ∷ []

abbrev pub entity_keywords : List Text
entity_keywords =
    codes "about"
    ∷ codes "regarding"
    ∷ codes "concerning"
    ∷ codes "with"
    ∷ codes "from"
    ∷ codes "by"
    ∷ []

abbrev pub relation_patterns : Table
relation_patterns =
    (stem (codes "caus|led to|result|because|due to"), codes "caused-by")
    ∷ (stem (codes "contain|include|has|with"), codes "contains")
    ∷ (stem (codes "depend|require|need"), codes "depends-on")
    ∷ (stem (codes "contradict|conflict|oppos"), codes "contradicts")
    ∷ (stem (codes "support|confirm|agree|validat"), codes "supports")
    ∷ (stem (codes "relat|connect|link|associat"), codes "associated-with")
    ∷ (stem (codes "preced|before|prior|earlier"), codes "precedes")
    ∷ (stem (codes "follow|after|subsequent|later"), codes "follows")
    ∷ []

abbrev pub temporal_patterns : Table
temporal_patterns =
    (whole_word (codes "now|current|present|immediate|just"), codes "immediate")
    ∷ (stem (codes "recent|lately|latest|last|just now"), codes "recent")
    ∷ (whole_word (codes "today|this session"), codes "session")
    ∷ (whole_word (codes "yesterday|last time|previous"), codes "prior-session")
    ∷ (whole_word (codes "old|ancient|long ago|historical"), codes "historical")
    ∷ (whole_word (codes "always|permanent|forever|persistent"), codes "permanent")
    ∷ []

abbrev pub qualifier_patterns : Table
qualifier_patterns =
    (stem (codes "urgent|critical|important|highpri|high.pri"), codes "high-priority")
    ∷ (whole_word (codes "uncertain|maybe|possibly|might"), codes "uncertain")
    ∷ (whole_word (codes "confirmed|certain|definite|verified"), codes "confirmed")
    ∷ (whole_word (codes "private|secret|sensitive|personal"), codes "private")
    ∷ (whole_word (codes "shared|public|common|global"), codes "shared")
    ∷ []

unfoldable pub describe : Text → SemanticGrammar
unfolding matching first_matching domain_value find_entity
describe lower = record {
  domain = domain_value (matching domain_patterns lower);
  entity = single (find_entity entity_keywords false lower);
  relation = single (first_matching relation_patterns lower);
  temporal = single (first_matching temporal_patterns lower);
  qualifier = single (first_matching qualifier_patterns lower);
}

unfoldable pub parse_description : Text → SemanticGrammar
unfolding describe to_lower_case trim_start trim_end
parse_description t = describe (trim_end (trim_start (to_lower_case t)))
