-- ===== src/Examples/Crowd.antt =====
-- A server with a full room, and a client in another room.
use tcp_chat_server_c.Base.{List, [], map, pos, refl, some, suc, zero, ℕ, ◌+◌, ◌∷◌}
use tcp_chat_server_c.CString.{Bytes, eq_bytes}
use tcp_chat_server_c.Search.{find_first}
use tcp_chat_server_c.Clients.{Client}
use tcp_chat_server_c.Rooms.{Room, occupies}
use tcp_chat_server_c.Server.{World}
use tcp_chat_server_c.Safety.{IsValid}
use tcp_chat_server_c.Examples.Worlds.{ann, bob, client, hall, lobby}

abbrev packed_name : Bytes
packed_name = b'p' ∷ b'i' ∷ b't' ∷ []

abbrev guest : ℕ → Client
guest i = client (10 + i) ((97 + i) ∷ []) (pos (20 + i)) packed_name

abbrev upto : ℕ → List ℕ
upto zero = []
upto (suc n) = n ∷ upto n

abbrev guests : List Client
guests = map guest (upto 15)

abbrev pub packed : Room
packed = record {
  room_name = packed_name;
  created_time = 0;
  clients = map (λ i. some (10 + i)) (upto 15);
  client_count = 15;
  total_messages_sent = 0;
  last_activity = 0;
}

abbrev pub full_house : World
full_house = record hall {
  clients = record { nodes = ann ∷ bob ∷ guests; active_client_count = 17 };
  rooms = record { nodes = packed ∷ lobby ∷ []; total_room_count = 2 };
}

pub full_house-IsValid : IsValid full_house
unfolding eq_bytes occupies find_first
full_house-IsValid = record {
  clients = record {
    addresses = (
      refl,
      (
        refl,
        (
          refl,
          (
            refl,
            (
              refl,
              (
                refl,
                (
                  refl,
                  (
                    refl,
                    (refl, (refl, (refl, (refl, (refl, (refl, (refl, (refl, (refl, tt))))))))),
                  ),
                ),
              ),
            ),
          ),
        ),
      ),
    );
    usernames = (
      refl,
      (
        refl,
        (
          refl,
          (
            refl,
            (
              refl,
              (
                refl,
                (
                  refl,
                  (
                    refl,
                    (refl, (refl, (refl, (refl, (refl, (refl, (refl, (refl, (refl, tt))))))))),
                  ),
                ),
              ),
            ),
          ),
        ),
      ),
    );
    active = (
      refl,
      (
        refl,
        (
          refl,
          (
            refl,
            (
              refl,
              (
                refl,
                (
                  refl,
                  (
                    refl,
                    (refl, (refl, (refl, (refl, (refl, (refl, (refl, (refl, (refl, tt))))))))),
                  ),
                ),
              ),
            ),
          ),
        ),
      ),
    );
    count = refl;
  };
  rooms = record {
    names = (refl, (refl, tt));
    rooms = (
      record {
        slots = refl;
        counted = refl;
        once = (
          refl,
          (
            refl,
            (
              refl,
              (
                refl,
                (
                  refl,
                  (
                    refl,
                    (refl, (refl, (refl, (refl, (refl, (refl, (refl, (refl, (refl, tt))))))))),
                  ),
                ),
              ),
            ),
          ),
        );
        named = λ e. cc;
      },
      (record { slots = refl; counted = refl; once = (refl, (refl, tt)); named = λ e. cc }, tt),
    );
    total = refl;
  };
  seats = (
    (
      (guest 14, refl, refl),
      (
        (guest 13, refl, refl),
        (
          (guest 12, refl, refl),
          (
            (guest 11, refl, refl),
            (
              (guest 10, refl, refl),
              (
                (guest 9, refl, refl),
                (
                  (guest 8, refl, refl),
                  (
                    (guest 7, refl, refl),
                    (
                      (guest 6, refl, refl),
                      (
                        (guest 5, refl, refl),
                        (
                          (guest 4, refl, refl),
                          (
                            (guest 3, refl, refl),
                            (
                              (guest 2, refl, refl),
                              ((guest 1, refl, refl), ((guest 0, refl, refl), tt)),
                            ),
                          ),
                        ),
                      ),
                    ),
                  ),
                ),
              ),
            ),
          ),
        ),
      ),
    ),
    (((ann, refl, refl), ((bob, refl, refl), tt)), tt),
  );
}
