-- ===== src/Session/Tests/Listing.antt =====
-- A listing of three sessions, two to a page.
use agent_env.Base.{◌≡◌, refl, true, Option, some, List, [], ◌∷◌, map, All}
use agent_env.Session.Listing.{
  SessionListItem, SessionListOptions, page_session_items, list_sessions_from_candidate_ids,
}
use agent_env.Session.Listing.Pages.{collect}
use agent_env.Session.Listing.Full.{AreDistinct, IsName, page_at, page_session_items_complete}
use agent_env.Session.Listing.Chunks.{listed_candidates}
use agent_env.Session.Listing.Candidates.{list_sessions_from_candidate_ids_complete}
use agent_env.Base.Text.{Text, Text_eq, codes, text_eq, trim_space, text_lt}
use agent_env.Base.Sort.{sort}
use agent_env.Base.Sets.{contains}
use agent_env.Base.Int.{pos}

abbrev item : Text → SessionListItem
item id = record {
  id = id;
  created_at = 0;
  profile = codes "default";
  experiment_id = codes "exp";
  status = [];
  managed = true;
}

abbrev two_a_page : SessionListOptions
two_a_page = record {
  profile = [];
  experiment_id = codes "exp";
  status = codes "active";
  limit = pos 2;
  cursor = [];
}

abbrev ids : List Text
ids = codes "c" ∷ codes "a" ∷ codes "b" ∷ []

abbrev items : List SessionListItem
items = map item ids

abbrev get : Text → Option SessionListItem
get id = some (item id)

ids-AreDistinct : AreDistinct ids
unfolding contains text_eq
ids-AreDistinct = (refl, (refl, (refl, tt)))

ids-IsName : All IsName ids
unfolding trim_space
ids-IsName = ((refl, refl), ((refl, refl), ((refl, refl), tt)))

items-IsName : All (λ s. IsName s.id) items
unfolding trim_space
items-IsName = ((refl, refl), ((refl, refl), ((refl, refl), tt)))

page_session_items_complete_example :
    collect (page_at (page_session_items items) two_a_page) 4 [] ≡ some items
page_session_items_complete_example =
    page_session_items_complete items two_a_page ids-AreDistinct items-IsName

list_sessions_from_candidate_ids_complete_example :
    collect (page_at (list_sessions_from_candidate_ids get ids) two_a_page) 4 []
    ≡ some (listed_candidates get two_a_page (sort text_lt ids))
list_sessions_from_candidate_ids_complete_example =
    list_sessions_from_candidate_ids_complete get ids two_a_page ids-AreDistinct ids-IsName
