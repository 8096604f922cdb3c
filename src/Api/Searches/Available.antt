-- ===== src/Api/Searches/Available.antt =====
-- What a client of flydesk/search/views.py gets when providers or Redis fail.
use fly_desk.Prelude.{List}
use fly_desk.Search.FanOut.Asked.{Asked}
